-- ===== src/Dispatch.antt =====
-- Tasks in a cluster: maestro/cluster.py, the tasks, shards and proofs of maestro/state_bus.py,
-- maestro/api_cluster.py and the task, proof and health handlers of maestro/node_server.py. All nodes share
-- one Redis, to which a node is connected or not, and a command on it does not fail. A URL http://X:8000 is
-- modelled by X. The numbers in the environment are not negative. Parameters stand for SHA-256 and the text
-- of numbers, and an argument for the network: the node that answers at a URL.
use Prim.Native.String.{[] as text_end, ◌∷◌ as ◌∷ₜ◌}
use maestro_orchestrator.Prelude.{
  ℕ, zero, suc, ◌+◌, ◌%◌, String, Bool, true, false, not, ◌&&◌, ◌||◌, Option, none, some, List, [],
  ◌∷◌, ◌++◌, map, ◌==◌, number_keys, text_keys, if◌then◌else◌, ltb, leb, nat_beq,
}
use maestro_orchestrator.Prelude.Lists.{length, count_if, nonempty}
use maestro_orchestrator.Prelude.Dict.{Dict, get, set, delete, values}
pub mod Routing
pub mod Health

pub data NodeRole : Type 0 where
  orchestrator_node shard_node standalone : NodeRole

-- The variables of the environment that are set; the role in small letters and without blanks around it.
pub record NodeEnv : Type 0 where
  pub node_role : String
  pub node_id : Option String
  pub shard_count : Option ℕ
  pub shard_index : Option ℕ
  pub orchestrator_url : String
  pub redis_url : String

pub record ClusterConfig : Type 0 where
  pub role : NodeRole
  pub node_id : String
  pub shard_index : Option ℕ
  pub shard_count : ℕ
  pub orchestrator_url : String
  pub redis_url : String

-- The role and the index before the number of shards is looked at.
unfoldable pub role_and_index : NodeEnv → NodeRole × Option ℕ
role_and_index env =
    if env.node_role == "orchestrator"
    then (orchestrator_node, none)
    else if env.node_role == "shard"
    then (shard_node, some (elim env.shard_index [ none ↦ 0 | some i ↦ i ]))
    else (standalone, none)

unfoldable pub is_orchestrator_node : NodeRole → Bool
is_orchestrator_node orchestrator_node = true
is_orchestrator_node shard_node = false
is_orchestrator_node standalone = false

unfoldable pub detect_cluster_config : NodeEnv → ClusterConfig
unfolding role_and_index is_orchestrator_node
detect_cluster_config env =
    let (role, index) = role_and_index env in
    let count : ℕ = elim env.shard_count [ none ↦ 1 | some n ↦ n ] in
    record {
      role = if leb count 1 && not (is_orchestrator_node role) then standalone else role;
      node_id = elim env.node_id [ none ↦ "standalone" | some x ↦ x ];
      shard_index = index;
      shard_count = if leb 1 count then count else 1;
      orchestrator_url = env.orchestrator_url;
      redis_url = env.redis_url;
    }

pub record Assignment : Type 0 where
  pub shard_index : ℕ
  pub assigned_at : String
  pub prompt : String

pub record TaskResult : Type 0 where
  pub task_id : String
  pub node_id : String
  pub shard_index : Option ℕ
  pub response : String
  pub timestamp : String

pub record ShardInfo : Type 0 where
  pub role : NodeRole
  pub shard_index : Option ℕ
  pub shard_count : ℕ
  pub shards : List String

pub record Attestation : Type 0 where
  pub challenge_id : String
  pub node_id : String
  pub shard_index : Option ℕ
  pub shard_count : ℕ
  pub attestation : String
  pub responded_at : String

pub record Redis : Type 0 where
  pub tasks : Dict String Assignment
  pub results : Dict String TaskResult
  pub shards : Dict String ShardInfo
  pub proofs : Dict String Attestation
  pub ledger_queue : List String

-- Each operation of the bus says first whether the node is connected.
unfoldable pub assign_task : Bool → String → Assignment → Redis → Redis
assign_task connected id a r = if connected then record r { tasks = set id a r.tasks } else r

unfoldable pub get_task : Bool → String → Redis → Option Assignment
get_task connected id r = if connected then get id r.tasks else none

unfoldable pub complete_task : Bool → String → TaskResult → Redis → Redis
complete_task connected id result r =
    if connected
    then record r { results = set id result r.results; tasks = delete id r.tasks }
    else r

unfoldable pub get_result : Bool → String → Redis → Option TaskResult
get_result connected id r = if connected then get id r.results else none

unfoldable pub register_shard : Bool → String → ShardInfo → Redis → Redis
register_shard connected id info r =
    if connected then record r { shards = set id info r.shards } else r

unfoldable pub list_shards : Bool → Redis → Dict String ShardInfo
list_shards connected r = if connected then r.shards else []

unfoldable pub unregister_shard : Bool → String → Redis → Redis
unregister_shard connected id r = if connected then record r { shards = delete id r.shards } else r

unfoldable pub publish_proof : Bool → String → Attestation → Redis → Redis
publish_proof connected id proof r =
    if connected then record r { proofs = set id proof r.proofs } else r

unfoldable pub get_proof : Bool → String → Redis → Option Attestation
get_proof connected id r = if connected then get id r.proofs else none

unfoldable pub enqueue_ledger_entry : Bool → String → Redis → Redis
enqueue_ledger_entry connected entry r =
    if connected then record r { ledger_queue = r.ledger_queue ++ (entry ∷ []) } else r

unfoldable pub dequeue_ledger_entry : Bool → Redis → Redis × Option String
dequeue_ledger_entry connected r =
    if connected
    then (elim r.ledger_queue [
      | [] ↦ (r, none)
      | entry ∷ entries ↦ (record r { ledger_queue = entries }, some entry)
    ])
    else (r, none)

-- A node that runs: its id, its configuration, the checksums of its shards, and whether it is connected.
pub record Node : Type 0 where
  pub node_id : String
  pub config : ClusterConfig
  pub loaded_shards : List String
  pub connected : Bool

-- The bus in the lifespan of a node: what it does at the start and at the end.
unfoldable pub start_node : Node → Redis → Redis
unfolding register_shard
start_node n r =
    let c = n.config in
    let info : ShardInfo = record {
      role = c.role;
      shard_index = c.shard_index;
      shard_count = c.shard_count;
      shards = n.loaded_shards;
    } in
    register_shard n.connected n.node_id info r

unfoldable pub stop_node : Node → Redis → Redis
unfolding unregister_shard
stop_node n r = unregister_shard n.connected n.node_id r

-- text[:n]
unfoldable pub clip : ℕ → String → String
clip zero s = ""
clip (suc n) text_end = ""
clip (suc n) (c ∷ₜ s) = c ∷ₜ clip n s

-- The shards of the bus that have an index, by index.
unfoldable pub urls_of : Dict String ShardInfo → Dict ℕ String → Dict ℕ String
unfolding set
urls_of [] urls = urls
urls_of ((id, info) ∷ shards) urls = elim info.shard_index [
  | none ↦ urls_of shards urls
  | some i ↦ urls_of shards (set i id urls)
]

-- The names of Docker Compose, from a slot on.
unfoldable pub slots_from : (ℕ → String) → ℕ → ℕ → Dict ℕ String
slots_from slot_name i zero = []
slots_from slot_name i (suc count) = (i, slot_name (i + 1)) ∷ slots_from slot_name (i + 1) count

unfoldable pub shard_urls : (ℕ → String) → ClusterConfig → Bool → Redis → Dict ℕ String
unfolding list_shards urls_of slots_from
shard_urls slot_name cfg connected r =
    let urls = urls_of (list_shards connected r) [] in
    if nonempty urls then urls else slots_from slot_name 0 cfg.shard_count

-- sorted(shard_urls.items())
unfoldable pub insert_by_index : ℕ × String → List (ℕ × String) → List (ℕ × String)
insert_by_index x [] = x ∷ []
insert_by_index x (y ∷ ys) =
    let rest = insert_by_index x ys in if leb x.0 y.0 then x ∷ y ∷ ys else y ∷ rest

unfoldable pub sort_by_index : List (ℕ × String) → List (ℕ × String)
unfolding insert_by_index
sort_by_index [] = []
sort_by_index (x ∷ xs) = insert_by_index x (sort_by_index xs)

pub record DispatchRequest : Type 0 where
  pub prompt : String
  pub task_id : String

pub data NodeAnswer : Type 0 where
  processed : TaskResult → NodeAnswer
  belongs_to : ℕ → NodeAnswer

pub data Dispatched : Type 0 where
  dispatched : String → ℕ → String → TaskResult → Dispatched
  not_dispatcher : Dispatched
  no_url : ℕ → Dispatched
  rejected : ℕ → Dispatched
  unreachable : ℕ → Dispatched

module _ (sha256 : String → ℕ) (processed_text : String → String → String → String) where
  -- The number of shards is at least 1 in every configuration.
  unfoldable pub assign_shard : String → ℕ → ℕ
  assign_shard id count = sha256 id % count

  unfoldable pub is_task_owned : String → ℕ → ℕ → Bool
  unfolding assign_shard
  is_task_owned id index count = nat_beq (assign_shard id count) index

  -- Whether a node turns a task away: only a shard with an index does.
  unfoldable pub turns_away : ClusterConfig → String → Bool
  unfolding is_task_owned
  turns_away c id = elim c.role [
    | orchestrator_node ↦ false
    | standalone ↦ false
    | shard_node ↦ elim c.shard_index [
      | none ↦ false
      | some i ↦ not (is_task_owned id i c.shard_count)
    ]
  ]

  unfoldable pub task_result_of : Node → String → String → String → TaskResult
  unfolding clip
  task_result_of n id prompt now = record {
    task_id = id;
    node_id = n.node_id;
    shard_index = n.config.shard_index;
    response = processed_text n.node_id id (clip 200 prompt);
    timestamp = now;
  }

  unfoldable pub task_dispatch : Node → String → String → String → Redis → Redis × NodeAnswer
  unfolding turns_away complete_task task_result_of assign_shard
  task_dispatch n id prompt now r =
      let result = task_result_of n id prompt now in
      if turns_away n.config id
      then (r, belongs_to (assign_shard id n.config.shard_count))
      else (complete_task n.connected id result r, processed result)

  unfoldable pub answered : String → ℕ → String → Redis × NodeAnswer → Redis × Dispatched
  answered id target url (r, processed result) = (r, dispatched id target url result)
  answered id target url (r, belongs_to i) = (r, rejected target)

  unfoldable pub send_task :
      (String → Option Node) → String → ℕ → String → String → String → Redis → Redis × Dispatched
  unfolding task_dispatch answered
  send_task net id target url prompt now r = elim (net url) [
    | none ↦ (r, unreachable target)
    | some n ↦ answered id target url (task_dispatch n id prompt now r)
  ]

  -- `dispatch_task` of the API, with the id that is drawn where the request has none.
  unfoldable pub dispatch_task :
      (ℕ → String)
      → (String → Option Node)
      → ClusterConfig
      → Bool
      → String
      → String
      → DispatchRequest
      → Redis
      → Redis × Dispatched
  unfolding assign_shard assign_task shard_urls send_task clip
  dispatch_task slot_name net cfg connected drawn now req r =
      let id = if req.task_id == "" then drawn else req.task_id in
      let target = assign_shard id cfg.shard_count in
      let assigned =
        assign_task connected id
          (record { shard_index = target; assigned_at = now; prompt = clip 200 req.prompt }) r in
      elim cfg.role [
        | shard_node ↦ (r, not_dispatcher)
        | orchestrator_node ↦ elim (get target (shard_urls slot_name cfg connected assigned)) [
          | none ↦ (assigned, no_url target)
          | some url ↦ send_task net id target url req.prompt now assigned
        ]
        | standalone ↦ elim (get target (shard_urls slot_name cfg connected assigned)) [
          | none ↦ (assigned, no_url target)
          | some url ↦ send_task net id target url req.prompt now assigned
        ]
      ]

-- `proof_attest`: `digest` is the hash of the text of the node's id, its index, the nonce and its shards.
module _ (digest : String → Option ℕ → String → List String → String) where
  unfoldable pub proof_attest : Node → String → String → String → Redis → Redis × Attestation
  unfolding publish_proof
  proof_attest n challenge_id nonce now r =
      let a : Attestation = record {
        challenge_id = challenge_id;
        node_id = n.node_id;
        shard_index = n.config.shard_index;
        shard_count = length n.loaded_shards;
        attestation = digest n.node_id n.config.shard_index nonce n.loaded_shards;
        responded_at = now;
      } in
      (publish_proof n.connected n.node_id a r, a)

  -- Every shard is asked in the order of the indices; `none` is a shard that was not reached.
  unfoldable pub attest_each :
      (String → Option Node)
      → String
      → String
      → String
      → List (ℕ × String)
      → Redis
      → Redis × List (ℕ × Option Attestation)
  unfolding proof_attest
  attest_each net challenge_id nonce now [] r = (r, [])
  attest_each net challenge_id nonce now ((i, url) ∷ urls) r = elim (net url) [
    | none ↦
        let (r', results) = attest_each net challenge_id nonce now urls r in
        (r', (i, none) ∷ results)
    | some n ↦
        let (r', a) = proof_attest n challenge_id nonce now r in
        let (r'', results) = attest_each net challenge_id nonce now urls r' in
        (r'', (i, some a) ∷ results)
  ]

-- The status that `/health` of a node answers.
abbrev pub node_status : String
node_status = "available"

-- The status of a shard in `cluster_health`: the answer of the node is merged over "healthy".
unfoldable pub health_status : (String → Option Node) → String → String
health_status net url = elim (net url) [ none ↦ "unreachable" | some n ↦ node_status ]

unfoldable pub cluster_health : (String → Option Node) → Dict ℕ String → Dict ℕ String × ℕ
unfolding health_status sort_by_index
cluster_health net urls =
    let nodes = map (λ e. (e.0, health_status net e.1)) (sort_by_index urls) in
    (nodes, count_if (λ s. s == "healthy") (values nodes))
