-- ===== src/StorageProof/Invariants.antt =====
-- The books of maestro/storage_proof.py: what a response counts for, and what holds of every
-- reputation that the engine keeps.
use maestro_orchestrator.Prelude.{
  ℕ, ◌+◌, ◌≤◌, ◌≡◌, refl, String, Bool, Option, none, some, List, [], ◌∷◌, if◌then◌else◌, text_keys,
  ltb, inl, inr, Bool-cases, beq_refl,
}
use maestro_orchestrator.Prelude.Lists.{length, take_last}
use maestro_orchestrator.Prelude.Dict.{get, delete}
use maestro_orchestrator.Prelude.Float.{Float}
use maestro_orchestrator.StorageProof.{
  ChallengeType, StorageChallenge, ChallengeResponse, Engine, NodeReputation, get_reputation,
  validate_response, settle, record_success, record_failure, add_r2_contribution,
  evict_if_necessary, update_pass_rate, check_answer,
}
use maestro_orchestrator.StorageProof.Challenges.{Draw, issue_challenge, get_reputation-set}
use maestro_orchestrator.StorageProof.Responses.{validate_known}

-- One more response, passed or failed.
abbrev pub books_counted : Bool → ℕ × ℕ → ℕ × ℕ
books_counted ok (p, q) = if ok then (p + 1, q) else (p, q + 1)

module _ {F : Type 0} ⦃f : Float F⦄ where
  -- The books of one node: passed, failed.
  abbrev pub books : String → Engine F → ℕ × ℕ
  books k e = ((get_reputation k e).challenges_passed, (get_reputation k e).challenges_failed)

  success_books :
      (k : String) (l : Option F) (e : Engine F)
      → books k (record_success k l e) ≡ ((books k e).0 + 1, (books k e).1)
  unfolding record_success
  success_books k none e = rw (get_reputation-set, beq_refl k) refl
  success_books k (some ms) e = rw (get_reputation-set, beq_refl k) refl

  failure_books :
      (now : ℕ) (k : String) (e : Engine F)
      → books k (record_failure now k e) ≡ ((books k e).0, (books k e).1 + 1)
  unfolding record_failure
  failure_books now k e = rw (get_reputation-set, beq_refl k) refl

  books-settle :
      (now : ℕ) (c : StorageChallenge) (a : ChallengeResponse F) (e : Engine F)
      → books a.node_id (settle now c a e).0
        ≡ books_counted (settle now c a e).2 (books a.node_id e)
  unfolding settle
  books-settle now c a e = elim (Bool-cases (ltb c.expires_at a.responded_at)) [
    | inl late ↦ rw (late, settle) (failure_books now a.node_id e)
    | inr in_time ↦ elim (Bool-cases (check_answer c a).0) [
      | inl ok ↦ rw (in_time, ok, settle) (success_books a.node_id a.latency_ms e)
      | inr bad ↦ rw (in_time, bad, settle) (failure_books now a.node_id e)
    ]
  ]

  -- A response to a pending challenge is booked once, as passed if it is accepted and as failed
  -- otherwise, for the node that the response names.
  validate_response-books :
      (now : ℕ) (a : ChallengeResponse F) (e : Engine F) (c : StorageChallenge)
      → get a.challenge_id e.pending ≡ some c
      → let t = validate_response now a e in
        books a.node_id t.0 ≡ books_counted t.2 (books a.node_id e)
  unfolding get_reputation
  validate_response-books now a e c q =
      rw (validate_known now a e q)
        (books-settle now c a (record e { pending = delete a.challenge_id e.pending }))

  -- What holds of every reputation: at most 100 contributions are kept, and the pass rate is that of
  -- the counts.
  abbrev pub IsBooked : NodeReputation F → Type 0
  IsBooked r =
      (length r.r2_contribution_scores ≤ 100)
      × ((update_pass_rate r).challenge_pass_rate ≡ r.challenge_pass_rate)

  abbrev kept : List F → List F
  kept scores = if ltb 100 (length scores) then take_last 100 scores else scores

-- The calls that change an engine.
pub data Call (F : Type 0) : Type 0 where
  issue : ℕ → Draw → String → String → ChallengeType → Call F
  respond : ℕ → ChallengeResponse F → Call F
  contribute : String → F → Call F
  evict : String → Call F

module _ {F : Type 0} ⦃f : Float F⦄ (range_hash : String → ℕ → ℕ → String)
    (canary_hash : String → String) where
  abbrev pub call : Call F → Engine F → Engine F
  call (issue now d node shard kind) e =
      (issue_challenge range_hash canary_hash now d node shard kind e).0
  call (respond now a) e = (validate_response now a e).0
  call (contribute k score) e = add_r2_contribution k score e
  call (evict k) e = (evict_if_necessary k e).0

  abbrev pub calls : List (Call F) → Engine F → Engine F
  calls [] e = e
  calls (c ∷ cs) e = calls cs (call c e)
