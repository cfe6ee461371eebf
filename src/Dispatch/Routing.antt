-- ===== src/Dispatch/Routing.antt =====
-- What `dispatch_task` of maestro/api_cluster.py does with a task, by the answers of the nodes.
use maestro_orchestrator.Prelude.{
  ℕ, ◌≡◌, refl, ap, ◌∙◌, String, Bool, true, false, Option, none, some, ◌==◌, number_keys,
  text_keys, if◌then◌else◌, arith, inl, inr, ◌⊎◌,
}
use maestro_orchestrator.Prelude.Dict.{get, set, get-set, get-delete, get-set_self, get-delete_self}
use maestro_orchestrator.Dispatch.{
  NodeRole, orchestrator_node, shard_node, standalone, ClusterConfig, Assignment, TaskResult, Redis,
  Node, DispatchRequest, processed, Dispatched, dispatched, not_dispatcher, no_url, rejected,
  unreachable, assign_task, complete_task, get_task, get_result, list_shards, clip, shard_urls,
  assign_shard, is_task_owned, turns_away, task_result_of, task_dispatch, answered, send_task,
  dispatch_task,
}

-- The id of a task.
abbrev pub task_id_of : String → DispatchRequest → String
task_id_of drawn req = if req.task_id == "" then drawn else req.task_id

-- Every node but a shard dispatches.
abbrev pub Dispatches : ClusterConfig → Type 0
Dispatches c = (c.role ≡ orchestrator_node) ⊎ (c.role ≡ standalone)

shard_urls-assign_task :
    (slot_name : ℕ → String) (c : ClusterConfig) (connected : Bool) (id : String) (a : Assignment)
    (r : Redis)
    → shard_urls slot_name c connected (assign_task connected id a r)
      ≡ shard_urls slot_name c connected r
unfolding shard_urls list_shards assign_task
shard_urls-assign_task slot_name c true id a r = refl
shard_urls-assign_task slot_name c false id a r = refl

role_cases : (x : NodeRole) → (x ≡ shard_node) ⊎ ((x ≡ orchestrator_node) ⊎ (x ≡ standalone))
role_cases orchestrator_node = inr (inl refl)
role_cases shard_node = inl refl
role_cases standalone = inr (inr refl)

module _ (sha256 : String → ℕ) (processed_text : String → String → String → String) where
  -- A shard takes the tasks that it owns, if it counts the shards as the one who routes does.
  owner_takes :
      (c : ClusterConfig) (id : String) (count : ℕ)
      → c.shard_index ≡ some (assign_shard sha256 processed_text id count)
      → c.shard_count ≡ count
      → turns_away sha256 processed_text c id ≡ false
  unfolding turns_away is_task_owned
  owner_takes c id count index same = elim (role_cases c.role) [
    | inl q ↦ rw (q, index, same) (ground arith)
    | inr (inl q) ↦ rw (q) refl
    | inr (inr q) ↦ rw (q) refl
  ]

  -- The assignment that the bus is told of a task.
  abbrev pub assignment_of : ClusterConfig → String → String → DispatchRequest → Assignment
  assignment_of c id now req = record {
    shard_index = assign_shard sha256 processed_text id c.shard_count;
    assigned_at = now;
    prompt = clip 200 req.prompt;
  }

  -- What a failed dispatch leaves of the Redis.
  abbrev pub Leaves : ℕ → String → Assignment → Redis → Redis → Dispatched → Type 0
  Leaves target id a r r' (dispatched i t url result) = Unit
  Leaves target id a r r' not_dispatcher = r' ≡ r
  Leaves target id a r r' (no_url t) =
      (t ≡ target) × (r'.results ≡ r.results) × (get id r'.tasks ≡ some a)
  Leaves target id a r r' (rejected t) =
      (t ≡ target) × (r'.results ≡ r.results) × (get id r'.tasks ≡ some a)
  Leaves target id a r r' (unreachable t) =
      (t ≡ target) × (r'.results ≡ r.results) × (get id r'.tasks ≡ some a)

  -- From the URL on, with the task assigned.
  abbrev sent :
      (String → Option Node)
      → String
      → ℕ
      → String
      → String
      → Redis
      → Option String
      → Redis × Dispatched
  sent net id target prompt now r none = (r, no_url target)
  sent net id target prompt now r (some url) =
      send_task sha256 processed_text net id target url prompt now r

  taken_lem :
      (net : String → Option Node) (id : String) (target : ℕ) (url prompt now : String) (r : Redis)
      (n : Node)
      → net url ≡ some n
      → turns_away sha256 processed_text n.config id ≡ false
      → let result = task_result_of sha256 processed_text n id prompt now in
        send_task sha256 processed_text net id target url prompt now r
        ≡ (complete_task n.connected id result r, dispatched id target url result)
  unfolding send_task task_dispatch answered
  taken_lem net id target url prompt now r n reached away =
      let result = task_result_of sha256 processed_text n id prompt now in
      let taken : task_dispatch sha256 processed_text n id prompt now r
          ≡ (complete_task n.connected id result r, processed result) =
        rw (task_dispatch, away) refl in
      rw (send_task, reached) (ap (answered sha256 processed_text id target url) taken)

  -- A task whose target has a URL is assigned and sent there.
  routed_lem :
      (slot_name : ℕ → String) (net : String → Option Node) (c : ClusterConfig) (connected : Bool)
      (drawn now : String) (req : DispatchRequest) (r : Redis) (url : String)
      → Dispatches c
      → let id = task_id_of drawn req in
        let target = assign_shard sha256 processed_text id c.shard_count in
        get target (shard_urls slot_name c connected r) ≡ some url
        → dispatch_task sha256 processed_text slot_name net c connected drawn now req r
          ≡ send_task sha256 processed_text net id target url req.prompt now
              (assign_task connected id (assignment_of c id now req) r)
  unfolding dispatch_task
  routed_lem slot_name net c connected drawn now req r url dispatches known =
      let id = task_id_of drawn req in
      let target = assign_shard sha256 processed_text id c.shard_count in
      let a = assignment_of c id now req in
      let known' : get target (shard_urls slot_name c connected (assign_task connected id a r))
          ≡ some url =
        ap (λ urls. get target urls) (shard_urls-assign_task slot_name c connected id a r)
        ∙ known in
      elim dispatches [
        | inl q ↦ rw (dispatch_task, q, known') refl
        | inr q ↦ rw (dispatch_task, q, known') refl
      ]

  -- What the bus holds of a task that a node has completed.
  completed_tasks :
      (connected : Bool) (id : String) (a : Assignment) (result : TaskResult) (r : Redis)
      → let r' = complete_task true id result (assign_task connected id a r) in
        (get_result true id r' ≡ some result)
        × (get_task true id r' ≡ none)
        × ((other : String)
            → (id == other) ≡ false
            → (get_result true other r' ≡ get_result true other r)
              × (get_task true other r' ≡ get_task true other r))
  unfolding get_result get_task complete_task assign_task
  completed_tasks true id a result r = (
    get-set_self id result r.results,
    get-delete_self id (set id a r.tasks),
    λ other apart. (rw (get-set, apart) refl, rw (get-delete, apart, get-set, apart) refl),
  )
  completed_tasks false id a result r = (
    get-set_self id result r.results,
    get-delete_self id r.tasks,
    λ other apart. (rw (get-set, apart) refl, rw (get-delete, apart) refl),
  )

  -- If the shard to which a task goes has a URL and is reached, has the target as its index, counts the
  -- shards as the dispatcher does, and is connected, then the task is dispatched to it, its result is on the
  -- bus, it is no longer assigned, and every other task and result is as it was.
  pub owner_completes :
      (slot_name : ℕ → String) (net : String → Option Node) (c : ClusterConfig) (connected : Bool)
      (drawn now : String) (req : DispatchRequest) (r : Redis) (url : String) (n : Node)
      → Dispatches c
      → let id = task_id_of drawn req in
        let target = assign_shard sha256 processed_text id c.shard_count in
        get target (shard_urls slot_name c connected r) ≡ some url
        → net url ≡ some n
        → n.config.shard_index ≡ some target
        → n.config.shard_count ≡ c.shard_count
        → n.connected ≡ true
        → let out = dispatch_task sha256 processed_text slot_name net c connected drawn now req r in
          let result = task_result_of sha256 processed_text n id req.prompt now in
          (out.1 ≡ dispatched id target url result)
          × (get_result true id out.0 ≡ some result)
          × (get_task true id out.0 ≡ none)
          × ((other : String)
              → (id == other) ≡ false
              → (get_result true other out.0 ≡ get_result true other r)
                × (get_task true other out.0 ≡ get_task true other r))
  owner_completes slot_name net c connected drawn now req r url n dispatches known reached index
        same joined =
      let id = task_id_of drawn req in
      let target = assign_shard sha256 processed_text id c.shard_count in
      let a = assignment_of c id now req in
      let result = task_result_of sha256 processed_text n id req.prompt now in
      let assigned = assign_task connected id a r in
      let taken = owner_takes n.config id c.shard_count index same in
      let out : dispatch_task sha256 processed_text slot_name net c connected drawn now req r
          ≡ (complete_task true id result assigned, dispatched id target url result) =
        routed_lem slot_name net c connected drawn now req r url dispatches known
        ∙ taken_lem net id target url req.prompt now assigned n reached taken
        ∙ ap (λ b. (complete_task b id result assigned, dispatched id target url result)) joined in
      let done = completed_tasks connected id a result r in rw out (refl, done.0, done.1, done.2)
