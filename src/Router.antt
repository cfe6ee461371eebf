-- ===== src/Router.antt =====
-- maestro/router: the graph distance of `DistanceMetric.d_graph` (maestro/router/distance.py) over a view of
-- the graph, which is a function from a node to its edges. A set is a list; its order does not matter here.
use maestro_orchestrator.Prelude.{
  ℕ, zero, suc, ◌+◌, String, Bool, true, false, not, ◌&&◌, ◌||◌, Option, none, some, List, [], ◌∷◌,
  ◌++◌, ◌==◌, text_keys, if◌then◌else◌,
}
use maestro_orchestrator.Prelude.Lists.{contains, nonempty}
pub mod Hops
pub mod Graph
pub mod Conformity
pub mod Views
pub mod Dissenter

pub data EdgeType : Type 0 where
  supersedes revokes shared_claim shared_corroborator shared_tag : EdgeType

pub record GraphEdge : Type 0 where
  pub src : String
  pub dst : String
  pub edge_type : EdgeType

-- edge.dst if edge.src == node else edge.src
unfoldable pub other_end : String → GraphEdge → String
other_end node e = if e.src == node then e.dst else e.src

-- The nodes behind some edges of a node that have not been visited.
unfoldable pub unvisited : List String → String → List GraphEdge → List String
unfolding other_end
unvisited visited node [] = []
unvisited visited node (e ∷ es) =
    let rest = unvisited visited node es in
    if contains visited (other_end node e) then rest else other_end node e ∷ rest

-- The body of the loop over the hops.
unfoldable pub next_frontier : (String → List GraphEdge) → List String → List String → List String
unfolding unvisited
next_frontier neighbors visited [] = []
next_frontier neighbors visited (node ∷ frontier) =
    unvisited visited node (neighbors node) ++ next_frontier neighbors visited frontier

-- `for hops in range(1, max_hops + 1)`, from a number of hops on, with the rounds that are left.
unfoldable pub search_hops :
    (String → List GraphEdge) → String → ℕ → ℕ → List String → List String → Option ℕ
unfolding next_frontier
search_hops neighbors target zero hops visited frontier = none
search_hops neighbors target (suc rounds) hops visited frontier =
    let next = next_frontier neighbors visited frontier in
    let later = search_hops neighbors target rounds (hops + 1) (visited ++ next) next in
    if not (nonempty next) then none else if contains next target then some hops else later

-- The hops from the nearest anchor; `none` where the code returns 1.0.
unfoldable pub hops_to : (String → List GraphEdge) → List String → ℕ → String → Option ℕ
unfolding search_hops
hops_to neighbors anchors max_hops target =
    if not (nonempty anchors)
    then none
    else if contains anchors target
    then some 0
    else search_hops neighbors target max_hops 1 anchors anchors

-- `d_graph`: `unreached` is 1.0, and `decay` is `1.0 - exp(-hops / k)`, of which the value at 0 is 0.0. Without
-- a view of the graph the distance is `stub`.
unfoldable pub d_graph {ℓ} :
    {F : Type ℓ} → F → F → (ℕ → F) → Option (String → List GraphEdge) → List String → ℕ → String → F
unfolding hops_to
d_graph stub unreached decay none anchors max_hops target = stub
d_graph stub unreached decay (some neighbors) anchors max_hops target =
    elim (hops_to neighbors anchors max_hops target) [ none ↦ unreached | some hops ↦ decay hops ]
