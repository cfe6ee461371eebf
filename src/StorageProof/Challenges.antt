-- ===== src/StorageProof/Challenges.antt =====
-- `issue_challenge` and `run_challenge_cycle` of maestro/storage_proof.py. A cycle takes its draws
-- from a list, one for each host, and a host without a draw is past the end of that list.
use maestro_orchestrator.Prelude.{
  ℕ, ◌+◌, ◌*◌, ◌%◌, ◌≡◌, ◌≤◌, refl, ap, ◌∙◌, String, none, some, List, [], ◌∷◌, if◌then◌else◌,
  text_keys, arith, ◌==◌, eq_iff, inl, inr, Bool-cases,
}
use maestro_orchestrator.Prelude.Lists.{length, count_if}
use maestro_orchestrator.Prelude.Dict.{Dict, set, keys, get-set}
use maestro_orchestrator.Prelude.Float.{Float}
use maestro_orchestrator.Registry.{WeightHost, Shard}
use maestro_orchestrator.StorageProof.{
  ChallengeType, byte_range_hash, latency_probe, canary_inference, unknown_type, StorageChallenge,
  Engine, NodeReputation, get_reputation, window_seconds, default_max_latency_ms,
}

-- What `issue_challenge` draws: the id, and the four random bytes as a number.
pub record Draw : Type 0 where
  pub id : String
  pub random : ℕ

module _ (range_hash : String → ℕ → ℕ → String) (canary_hash : String → String) where
  -- The challenge with the fields of its type filled in.
  new_challenge : ℕ → Draw → String → String → ChallengeType → StorageChallenge
  new_challenge now d node shard kind =
      let offset = d.random % (1024 * 1024) in
      let blank : StorageChallenge = record {
        challenge_id = d.id;
        node_id = node;
        shard_id = shard;
        challenge_type = kind;
        issued_at = now;
        expires_at = now + window_seconds * 1000000;
        byte_offset = none;
        byte_length = none;
        expected_hash = none;
        expected_output_hash = none;
        max_latency_ms = none;
      } in
      elim kind [
        | byte_range_hash ↦ record blank {
          byte_offset = some offset;
          byte_length = some 4096;
          expected_hash = some (range_hash shard offset 4096);
        }
        | latency_probe ↦ record blank { max_latency_ms = some default_max_latency_ms }
        | canary_inference ↦ record blank { expected_output_hash = some (canary_hash shard) }
        | unknown_type ↦ blank
      ]

-- The shard and the type of the challenge that a cycle issues to a host.
unfoldable pub target_of : List Shard → String × ChallengeType
target_of [] = ("none", latency_probe)
target_of (s ∷ _) = (elim s.shard_id [ none ↦ "unknown" | some k ↦ k ], byte_range_hash)

module _ {F : Type 0} ⦃f : Float F⦄ (range_hash : String → ℕ → ℕ → String)
    (canary_hash : String → String) where
  unfoldable pub issue_challenge :
      ℕ → Draw → String → String → ChallengeType → Engine F → Engine F × StorageChallenge
  unfolding new_challenge get_reputation
  issue_challenge now d node shard kind e =
      let c = new_challenge range_hash canary_hash now d node shard kind in
      let r = get_reputation node e in
      (
        record e {
          pending = set d.id c e.pending;
          reputations =
              set node
                (record r {
                  challenges_issued = r.challenges_issued + 1;
                  last_challenge = some now;
                })
                e.reputations;
        },
        c,
      )

  -- The engine and the hosts that were challenged, of which `challenges_issued` is the number.
  unfoldable pub run_challenge_cycle :
      ℕ → List Draw → List (String × WeightHost F) → Engine F → Engine F × List String
  unfolding issue_challenge target_of
  run_challenge_cycle now draws [] e = (e, [])
  run_challenge_cycle now [] (n ∷ ns) e = (e, [])
  run_challenge_cycle now (d ∷ ds) ((k, n) ∷ ns) e =
      let (shard, kind) = target_of n.shards in
      let (e', _) = issue_challenge now d k shard kind e in
      let (e'', challenged) = run_challenge_cycle now ds ns e' in (e'', k ∷ challenged)

abbrev pub issued : {F : Type 0} ⦃f : Float F⦄ → String → Engine F → ℕ
issued k e = (get_reputation k e).challenges_issued

-- The reputation of a node when another one, or its own, has been written.
pub get_reputation-set :
    {F : Type 0} ⦃f : Float F⦄ (k j : String) (r : NodeReputation F) (e : Engine F)
    (p : Dict String StorageChallenge) (s : Dict String (NodeReputation F))
    → get_reputation k (record { reputations = set j r e.reputations; pending = p; saved = s })
      ≡ (if j == k then r else get_reputation k e)
unfolding get_reputation
get_reputation-set k j r e p s = ground (arith, get-set j k r e.reputations)

one_more :
    {F : Type 0} ⦃f : Float F⦄ (node k : String) (r : NodeReputation F) (e : Engine F)
    → r.challenges_issued ≡ issued node e + 1
    → (if node == k then r else get_reputation k e).challenges_issued
      ≡ issued k e + (if node == k then 1 else 0)
one_more node k r e h = elim (Bool-cases (node == k)) [
  | inl q ↦ rw q (h ∙ ap (λ j. issued j e + 1) ((eq_iff node k).0 q))
  | inr q ↦ rw q (omega arith)
]

module _ {F : Type 0} ⦃f : Float F⦄ (range_hash : String → ℕ → ℕ → String)
    (canary_hash : String → String) where
  issued-issue_challenge :
      (now : ℕ) (d : Draw) (node shard : String) (kind : ChallengeType) (e : Engine F) (k : String)
      → issued k (issue_challenge range_hash canary_hash now d node shard kind e).0
        ≡ issued k e + (if node == k then 1 else 0)
  unfolding issue_challenge
  issued-issue_challenge now d node shard kind e k =
      let c = new_challenge range_hash canary_hash now d node shard kind in
      let r = get_reputation node e in
      let r' : NodeReputation F = record r {
        challenges_issued = r.challenges_issued + 1;
        last_challenge = some now;
      } in
      ap (λ (x : NodeReputation F). x.challenges_issued)
        (get_reputation-set k node r' e (set d.id c e.pending) e.saved)
      ∙ one_more node k r' e refl

  -- A cycle with a draw for each host challenges every host once, in the order of the table, and
  -- counts one challenge more for each.
  pub run_challenge_cycle_lem :
      (now : ℕ) (draws : List Draw) (hosts : List (String × WeightHost F)) (e : Engine F)
      → length hosts ≤ length draws
      → let t = run_challenge_cycle range_hash canary_hash now draws hosts e in
        (t.1 ≡ keys hosts)
        × ((k : String) → issued k t.0 ≡ issued k e + count_if (λ j. j == k) (keys hosts))
  unfolding run_challenge_cycle
  run_challenge_cycle_lem now draws [] e h = (refl, λ k. omega arith)
  run_challenge_cycle_lem now [] (n ∷ ns) e h = absurd (omega arith)
  run_challenge_cycle_lem now (d ∷ ds) ((k, n) ∷ ns) e h =
      let t = target_of n.shards in
      let e' = (issue_challenge range_hash canary_hash now d k t.0 t.1 e).0 in
      let (ks, counts) = run_challenge_cycle_lem now ds ns e' (omega arith) in
      (ap (λ l. k ∷ l) ks, λ j. omega (arith, counts j, issued-issue_challenge now d k t.0 t.1 e j))
