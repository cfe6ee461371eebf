-- ===== src/Registry.antt =====
-- maestro/shard_registry.py: weight hosts, their locality score, and the operations of
-- `WeightHostRegistry` on the table of hosts and the directory of host files behind it.
-- A time stamp is the string that `isoformat` made, and comes in as `now`. The five status strings
-- are the constructors of `Status`. A host file holds the JSON of its host; the codec is the
-- `json` module's, and a file is modelled by the host that it stands for.
pub mod Pipeline
pub mod Persistence
pub mod Reputation
use maestro_orchestrator.Prelude.{
  ℕ, ◌*◌, ◌^◌, String, Bool, true, false, not, ◌&&◌, ◌||◌, Option, none, some, List, [], ◌∷◌, ◌++◌,
  map, if◌then◌else◌, ◌==◌, leb, text_keys,
}
use maestro_orchestrator.Prelude.Lists.{any, keep, contains}
use maestro_orchestrator.Prelude.Dict.{Dict, get, set, delete, values}
use maestro_orchestrator.Prelude.Int.{ℤ, pos, leb_ℤ}
use maestro_orchestrator.Prelude.Float.{Float}

-- A shard as a host declares it: a dict, of which a key may be missing.
pub record Shard : Type 0 where
  pub shard_id : Option String
  pub model_id : Option String
  pub layer_range : Option (List ℤ)

-- shard.get("model_id", "")
unfoldable pub shard_model : Shard → String
shard_model s = elim s.model_id [ none ↦ "" | some m ↦ m ]

-- shard.get("layer_range", []), and its first two items where it has two.
unfoldable pub shard_range : Shard → Option (ℤ × ℤ)
shard_range s = elim s.layer_range [
  | none ↦ none
  | some l ↦ elim l [ [] ↦ none | a ∷ r ↦ elim r [ [] ↦ none | b ∷ _ ↦ some (a, b) ] ]
]

pub data Status : Type 0 where
  available busy offline probation evicted : Status

pub record WeightHost (F : Type 0) : Type 0 where
  pub node_id : String
  pub host : String
  pub port : ℕ
  pub status : Status
  pub shards : List Shard
  pub capabilities : List String
  pub total_memory_mb : ℕ
  pub used_memory_mb : ℕ
  pub mean_latency_ms : F
  pub reputation_score : F
  pub metadata : Dict String String
  pub registered_at : String
  pub last_heartbeat : String
  pub domain_affinity : List String
  pub warm : Bool
  pub hardware_class : String
  pub last_active : String

abbrev pub hardware_classes : List String
hardware_classes = "cloud_api" ∷ "local_gpu" ∷ "edge_node" ∷ "unknown" ∷ []

-- node.status in ("offline", "evicted")
unfoldable pub is_down : Status → Bool
is_down offline = true
is_down evicted = true
is_down _ = false

module _ {F : Type 0} where
  -- any(d in host.domain_affinity for d in query_domains); an empty list has no such `d`.
  unfoldable pub has_affinity : WeightHost F → List String → Bool
  has_affinity h domains = any (λ d. contains h.domain_affinity d) domains

  -- In hundredths: 1.0, 0.75, 0.5 and 0.25, which are only compared.
  unfoldable pub weight_locality_score : WeightHost F → List String → ℕ
  unfolding has_affinity
  weight_locality_score h domains =
      if h.warm && has_affinity h domains
      then 100
      else if h.warm
      then 75
      else if has_affinity h domains
      then 50
      else 25

-- The table of hosts, and the host files under the registry's directory.
pub record Registry (F : Type 0) : Type 0 where
  pub nodes : Dict String (WeightHost F)
  pub files : Dict String (WeightHost F)

module _ {F : Type 0} where
  unfoldable pub save_node : WeightHost F → Registry F → Registry F
  save_node n r = record r { files = set n.node_id n r.files }

  -- `_load_nodes` over the host files, in some order.
  unfoldable pub load_nodes : List (WeightHost F) → Dict String (WeightHost F)
  load_nodes [] = []
  load_nodes (n ∷ ns) = set n.node_id n (load_nodes ns)

  -- `__init__`: a registry over the files that are there.
  unfoldable pub open_registry : Dict String (WeightHost F) → Registry F
  unfolding load_nodes
  open_registry files = record { nodes = load_nodes (values files); files = files }

  unfoldable pub stamped : String → WeightHost F → WeightHost F
  stamped now n = record n {
    registered_at = if n.registered_at == "" then now else n.registered_at;
    last_heartbeat = now;
    hardware_class =
        if contains hardware_classes n.hardware_class then n.hardware_class else "unknown";
  }

  unfoldable pub register : String → WeightHost F → Registry F → Registry F
  unfolding stamped save_node
  register now n r =
      let n' = stamped now n in save_node n' (record r { nodes = set n'.node_id n' r.nodes })

  unfoldable pub unregister : String → Registry F → Registry F × Bool
  unregister k r = elim (get k r.nodes) [
    | none ↦ (r, false)
    | some _ ↦ (record { nodes = delete k r.nodes; files = delete k r.files }, true)
  ]

  -- An update of the host object that the table and its caller share, and the save behind it.
  unfoldable pub change : String → (WeightHost F → WeightHost F) → Registry F → Registry F × Bool
  unfolding save_node
  change k f r = elim (get k r.nodes) [
    | none ↦ (r, false)
    | some n ↦
        (record { nodes = set k (f n) r.nodes; files = set (f n).node_id (f n) r.files }, true)
  ]

  unfoldable pub heartbeat : String → String → Registry F → Registry F × Bool
  unfolding change
  heartbeat now k r = change k (λ n. record n { last_heartbeat = now }) r

  unfoldable pub mark_active : String → String → Registry F → Registry F × Bool
  unfolding change
  mark_active now k r = change k (λ n. record n { warm = true; last_active = now }) r

  pub get_node : String → Registry F → Option (WeightHost F)
  get_node k r = get k r.nodes

  pub list_nodes : Registry F → List (WeightHost F)
  list_nodes r = values r.nodes

module _ {F : Type 0} ⦃f : Float F⦄ where
  -- The status that a new reputation gives.
  unfoldable pub status_for : F → Status → Status
  status_for score s =
      if f.lt score (f.lit 3 1)
      then evicted
      else if f.lt score (f.lit 7 1)
      then probation
      else elim s [ probation ↦ available | evicted ↦ available | other ↦ other ]

  unfoldable pub update_reputation : String → F → Registry F → Registry F
  unfolding change status_for
  update_reputation k score r =
      (change k (λ n. record n { reputation_score = score; status = status_for score n.status })
        r).0

-- `age` is the time since a stamp in microseconds, `none` where `fromisoformat` or the
-- subtraction raises.
module _ {F : Type 0} (age : String → Option ℤ) (max_age_seconds : ℕ) where
  unfoldable pub is_stale : WeightHost F → Bool
  is_stale n = if n.last_heartbeat == "" then false else elim (age n.last_heartbeat) [
    | none ↦ false
    | some a ↦ not (leb_ℤ a (pos (max_age_seconds * 1000000)))
  ]

  -- The loop over the copy of the items.
  unfoldable pub prune_loop : List (String × WeightHost F) → Registry F → Registry F × List String
  prune_loop [] r = (r, [])
  prune_loop ((k, n) ∷ rest) r =
      let (r', pruned) = prune_loop rest (if is_stale n then (unregister k r).0 else r) in
      (r', if is_stale n then k ∷ pruned else pruned)

  unfoldable pub prune_stale_nodes : Registry F → Registry F × List String
  unfolding prune_loop
  prune_stale_nodes r = prune_loop r.nodes r

-- A shard of the model whose range holds the layers.
holds_layers : String → ℤ → ℤ → Shard → Bool
holds_layers model start end s =
    shard_model s == model
    && elim (shard_range s) [ none ↦ false | some (a, b) ↦ leb_ℤ a start && leb_ℤ end b ]

module _ {F : Type 0} where
  unfoldable pub find_nodes_for_shard : String → ℤ → ℤ → Registry F → List (WeightHost F)
  unfolding holds_layers
  find_nodes_for_shard model start end r =
      keep (λ n. not (is_down n.status) && any (holds_layers model start end) n.shards)
        (values r.nodes)

  unfoldable pub find_embedding_nodes : Option String → Registry F → List (WeightHost F)
  find_embedding_nodes model r =
      keep
        (λ n.
          not (is_down n.status)
          && contains n.capabilities "embeddings"
          && elim model [ none ↦ true | some m ↦ any (λ s. shard_model s == m) n.shards ])
        (values r.nodes)
