-- ===== src/Instances/Counts.antt =====
-- The number of shards that maestro/instances.py tells an instance, and the one that it publishes.
use maestro_orchestrator.Prelude.{
  ℕ, ◌+◌, ◌≤◌, ◌*◌, ◌≡◌, refl, ap, sym, ◌∙◌, none, [], ◌∷◌, number_keys, if◌then◌else◌, nat_beq,
  arith, inl, inr, Bool-cases,
}
use maestro_orchestrator.Prelude.Dict.{get, set}
use maestro_orchestrator.Instances.{
  orchestrator, shard, Entry, Instances, Cluster, is_shard, load_registry, save_registry,
  register_instance, shard_entries, at_least_one, cluster_shard_count,
}
use maestro_orchestrator.Instances.Spawn.{total_shards}

shard_entries-set :
    (n : ℕ) (e : Entry) (d : Instances)
    → get n d ≡ none
    → shard_entries (set n e d) ≡ shard_entries d + (if is_shard e.role then 1 else 0)
unfolding shard_entries get set
shard_entries-set n e [] h = ground arith
shard_entries-set n e ((k, v) ∷ d) h = elim (Bool-cases (nat_beq k n)) [
  | inl q ↦ absurd (let bad = rw q at h in cc)
  | inr q ↦ rw q (let ih = shard_entries-set n e d (rw q at h) in omega arith)
]

counted : (k : ℕ) → 1 ≤ k → at_least_one k ≡ k
unfolding at_least_one
counted k h = ground arith

double : (k : ℕ) → k + k ≡ 2 * k
double k = omega arith

-- When an instance that is not in the registry is registered, then for a shard the number of shards that
-- it was told is the one that is published after that; for an orchestrator of a cluster with shards the
-- number that it was told is twice the one that is published.
told_and_published :
    (n : ℕ) (e : Entry) (w : Cluster)
    → get n (load_registry w) ≡ none
    → let published = cluster_shard_count (register_instance n e w) in
      (e.role ≡ shard → total_shards shard w ≡ published)
      × (e.role ≡ orchestrator
          → 1 ≤ shard_entries (load_registry w)
          → total_shards orchestrator w ≡ 2 * published)
unfolding total_shards cluster_shard_count register_instance save_registry load_registry
    at_least_one is_shard
told_and_published n e w absent =
    let d = load_registry w in
    let count = shard_entries-set n e d absent in
    (
      λ role.
          let more : shard_entries (set n e d) ≡ shard_entries d + 1 = count ∙ rw role refl in
          sym (ap at_least_one more ∙ counted (shard_entries d + 1) (omega arith)),
      λ role some_.
          let same : shard_entries (set n e d) ≡ shard_entries d = count ∙ rw role (omega arith) in
          let one = counted (shard_entries d) some_ in
          let published : at_least_one (shard_entries (set n e d)) ≡ shard_entries d =
            ap at_least_one same ∙ one in
          ap (λ k. shard_entries d + k) one
          ∙ double (shard_entries d)
          ∙ ap (λ k. 2 * k) (sym published),
    )
