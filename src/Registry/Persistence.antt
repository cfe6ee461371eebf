-- ===== src/Registry/Persistence.antt =====
-- The host files of maestro/shard_registry.py against the table in memory.
use maestro_orchestrator.Prelude.{
  ℕ, String, ◌≡◌, refl, inl, inr, Option, List, [], ◌∷◌, arith, Bool-cases, Option-cases, text_keys,
  ◌∙◌,
}
use maestro_orchestrator.Prelude.Lists.{All}
use maestro_orchestrator.Prelude.Dict.{
  Dict, get, set, get-set, get-delete, UniqueKeys, set-UniqueKeys, delete-UniqueKeys, All-set_entry,
  All-delete_entry, All-get_entry,
}
use maestro_orchestrator.Prelude.Int.{ℤ}
use maestro_orchestrator.Prelude.Float.{Float}
use maestro_orchestrator.Registry.{
  WeightHost, Registry, register, unregister, change, heartbeat, mark_active, update_reputation,
  is_stale, prune_loop, prune_stale_nodes, stamped,
}

-- The directory has the host that the table has under each id, and all hosts stand under their ids,
-- each once.
pub record IsPersisted {F : Type 0} (r : Registry F) : Type 0 where
  pub same : (k : String) → get k r.files ≡ get k r.nodes
  pub nodes_keyed : All (λ e. e.1.node_id ≡ e.0) r.nodes
  pub files_keyed : All (λ e. e.1.node_id ≡ e.0) r.files
  pub unique : UniqueKeys r.nodes

module _ {F : Type 0} where
  abbrev Keyed : String × WeightHost F → Type 0
  Keyed e = e.1.node_id ≡ e.0

  same-set :
      (k : String) (n : WeightHost F) (r : Registry F)
      → IsPersisted r
      → (j : String) → get j (set k n r.files) ≡ get j (set k n r.nodes)
  same-set k n r h j = ground (arith, get-set k j n r.files, get-set k j n r.nodes, h.same j)

  -- A host written under its own id, in the table and in its file.
  put-IsPersisted :
      (n : WeightHost F) (r : Registry F)
      → IsPersisted r
      → IsPersisted (record { nodes = set n.node_id n r.nodes; files = set n.node_id n r.files })
  put-IsPersisted n r h = record {
    same = same-set n.node_id n r h;
    nodes_keyed = All-set_entry Keyed n.node_id n r.nodes refl h.nodes_keyed;
    files_keyed = All-set_entry Keyed n.node_id n r.files refl h.files_keyed;
    unique = set-UniqueKeys n.node_id n r.nodes h.unique;
  }

  register-IsPersisted :
      (now : String) (n : WeightHost F) (r : Registry F)
      → IsPersisted r
      → IsPersisted (register now n r)
  unfolding register
  register-IsPersisted now n r h = put-IsPersisted (stamped now n) r h

  unregister-IsPersisted :
      (k : String) (r : Registry F) → IsPersisted r → IsPersisted (unregister k r).0
  unfolding unregister
  unregister-IsPersisted k r h = elim (Option-cases (get k r.nodes)) [
    | inl q ↦ rw (q, unregister) h
    | inr (n, q) ↦
        rw (q, unregister)
          (record {
            same = λ j. ground (arith, get-delete k j r.files, get-delete k j r.nodes, h.same j);
            nodes_keyed = All-delete_entry Keyed k r.nodes h.nodes_keyed;
            files_keyed = All-delete_entry Keyed k r.files h.files_keyed;
            unique = delete-UniqueKeys k r.nodes h.unique;
          })
  ]

  -- A change that leaves the id alone.
  pub change-IsPersisted :
      (k : String) (f : WeightHost F → WeightHost F) (r : Registry F)
      → ((n : WeightHost F) → (f n).node_id ≡ n.node_id)
      → IsPersisted r
      → IsPersisted (change k f r).0
  unfolding change
  change-IsPersisted k f r same_id h = elim (Option-cases (get k r.nodes)) [
    | inl q ↦ rw (q, change) h
    | inr (n, q) ↦
        let id = same_id n ∙ All-get_entry Keyed k r.nodes h.nodes_keyed q in
        rw (q, change, ← id) (put-IsPersisted (f n) r h)
  ]

  prune_loop-IsPersisted :
      (age : String → Option ℤ) (m : ℕ) (items : Dict String (WeightHost F)) (r : Registry F)
      → IsPersisted r
      → IsPersisted (prune_loop age m items r).0
  unfolding prune_loop
  prune_loop-IsPersisted age m [] r h = h
  prune_loop-IsPersisted age m ((k, n) ∷ rest) r h = elim (Bool-cases (is_stale age m n)) [
    | inl e ↦
        rw e (prune_loop-IsPersisted age m rest (unregister k r).0 (unregister-IsPersisted k r h))
    | inr e ↦ rw e (prune_loop-IsPersisted age m rest r h)
  ]

-- The operations that change a registry, with the times and the clock that they are given.
pub data Op (F : Type 0) : Type 0 where
  register_op : String → WeightHost F → Op F
  unregister_op : String → Op F
  heartbeat_op : String → String → Op F
  mark_active_op : String → String → Op F
  update_reputation_op : String → F → Op F
  prune_op : (String → Option ℤ) → ℕ → Op F

module _ {F : Type 0} ⦃f : Float F⦄ where
  pub run : Op F → Registry F → Registry F
  run (register_op now n) r = register now n r
  run (unregister_op k) r = (unregister k r).0
  run (heartbeat_op now k) r = (heartbeat now k r).0
  run (mark_active_op now k) r = (mark_active now k r).0
  run (update_reputation_op k s) r = update_reputation k s r
  run (prune_op age m) r = (prune_stale_nodes age m r).0

  pub run-IsPersisted : (o : Op F) (r : Registry F) → IsPersisted r → IsPersisted (run o r)
  unfolding run heartbeat mark_active update_reputation prune_stale_nodes
  run-IsPersisted (register_op now n) r h = register-IsPersisted now n r h
  run-IsPersisted (unregister_op k) r h = unregister-IsPersisted k r h
  run-IsPersisted (heartbeat_op now k) r h = change-IsPersisted k _ r (λ n. refl) h
  run-IsPersisted (mark_active_op now k) r h = change-IsPersisted k _ r (λ n. refl) h
  run-IsPersisted (update_reputation_op k s) r h = change-IsPersisted k _ r (λ n. refl) h
  run-IsPersisted (prune_op age m) r h = prune_loop-IsPersisted age m r.nodes r h

  pub run_all : List (Op F) → Registry F → Registry F
  unfolding run
  run_all [] r = r
  run_all (o ∷ os) r = run_all os (run o r)

  pub run_all-IsPersisted :
      (os : List (Op F)) (r : Registry F) → IsPersisted r → IsPersisted (run_all os r)
  unfolding run_all
  run_all-IsPersisted [] r h = h
  run_all-IsPersisted (o ∷ os) r h = run_all-IsPersisted os (run o r) (run-IsPersisted o r h)
