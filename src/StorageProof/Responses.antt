-- ===== src/StorageProof/Responses.antt =====
-- The outcome of `validate_response` (maestro/storage_proof.py).
use maestro_orchestrator.Prelude.{
  ℕ, ◌≤◌, ◌≡◌, ◌↔◌, refl, ap, String, true, false, Option, none, some, text_keys, arith, ltb, inl,
  inr, Option-cases, some-inj, eq_iff,
}
use maestro_orchestrator.Prelude.Dict.{get, delete, get-delete_self}
use maestro_orchestrator.Prelude.Float.{Float}
use maestro_orchestrator.StorageProof.{
  ChallengeType, byte_range_hash, latency_probe, canary_inference, unknown_type, StorageChallenge,
  ChallengeResponse, Engine, validate_response, settle, check_answer, record_success,
  record_failure, same_text, latency_check, FailureReason, unknown_or_expired,
}

ltb-false→le : (a b : ℕ) → ltb a b ≡ false → b ≤ a
ltb-false→le a b h = ground arith

le→ltb-false : (a b : ℕ) → b ≤ a → ltb a b ≡ false
le→ltb-false a b h = ground arith

same_text_iff : (a b : Option String) → (same_text a b ≡ true) ↔ (a ≡ b)
unfolding same_text
same_text_iff none none = (λ h. refl, λ h. refl)
same_text_iff none (some b) = (λ h. cc, λ h. cc)
same_text_iff (some a) none = (λ h. cc, λ h. cc)
same_text_iff (some a) (some b) =
    (λ h. ap some ((eq_iff a b).0 h), λ h. (eq_iff a b).1 (some-inj h))

module _ {F : Type 0} ⦃f : Float F⦄ where
  -- What answers a challenge, in words of the challenge and the response alone.
  abbrev pub Answers : StorageChallenge → ChallengeResponse F → Type 0
  Answers c a = elim c.challenge_type as (λ _. Type 0) [
    | byte_range_hash ↦ a.response_hash ≡ c.expected_hash
    | latency_probe ↦
        (ms : F) × (limit : ℕ) × (a.latency_ms ≡ some ms)
        × (c.max_latency_ms ≡ some limit)
        × (f.le ms (f.lit limit 0) ≡ true)
    | canary_inference ↦ a.inference_output_hash ≡ c.expected_output_hash
    | unknown_type ↦ ⊥
  ]

  latency_check_iff :
      (l : Option F) (m : Option ℕ) (reason : Option FailureReason)
      → ((latency_check l m reason).0 ≡ true) ↔ (
          (ms : F) × (limit : ℕ) × (l ≡ some ms)
          × (m ≡ some limit)
          × (f.le ms (f.lit limit 0) ≡ true))
  unfolding latency_check
  latency_check_iff none m reason = (λ h. absurd (cc), λ h. absurd (let e = h.2 in cc))
  latency_check_iff (some ms) none reason = (λ h. absurd (cc), λ h. absurd (let e = h.3 in cc))
  latency_check_iff (some ms) (some limit) reason = (
    λ h. (ms, limit, refl, refl, ground arith),
    λ h. let (a, b, p, q, r) = h in let same = some-inj p in let bound = some-inj q in ground arith,
  )

  check_answer_iff :
      (c : StorageChallenge) (a : ChallengeResponse F) → ((check_answer c a).0 ≡ true) ↔ Answers c a
  unfolding check_answer
  check_answer_iff c a = by_type c.challenge_type refl
    where
      by_type :
          (k : ChallengeType) → c.challenge_type ≡ k → ((check_answer c a).0 ≡ true) ↔ Answers c a
      by_type byte_range_hash e =
          let (to, from) = same_text_iff a.response_hash c.expected_hash in
          rw (e, check_answer) (λ h. to (ground arith), λ h. let t = from h in ground arith)
      by_type latency_probe e =
          rw (e, check_answer) (latency_check_iff a.latency_ms c.max_latency_ms a.failure_reason)
      by_type canary_inference e =
          let (to, from) = same_text_iff a.inference_output_hash c.expected_output_hash in
          rw (e, check_answer) (λ h. to (ground arith), λ h. let t = from h in ground arith)
      by_type unknown_type e = rw (e, check_answer) (λ h. absurd (cc), λ h. absurd h)

  pub validate_known :
      (now : ℕ) (a : ChallengeResponse F) (e : Engine F) {c : StorageChallenge}
      → get a.challenge_id e.pending ≡ some c
      → validate_response now a e
        ≡ settle now c a (record e { pending = delete a.challenge_id e.pending })
  unfolding validate_response
  validate_known now a e q = rw (q, validate_response)

  pub validate_unknown :
      (now : ℕ) (a : ChallengeResponse F) (e : Engine F)
      → get a.challenge_id e.pending ≡ none
      → validate_response now a e
        ≡ (e, record a { passed = false; failure_reason = some unknown_or_expired }, false)
  unfolding validate_response
  validate_unknown now a e q = rw (q, validate_response)

  settle_accepts :
      (now : ℕ) (c : StorageChallenge) (a : ChallengeResponse F) (e : Engine F)
      → ((settle now c a e).2 ≡ true)
        ↔ ((ltb c.expires_at a.responded_at ≡ false) × ((check_answer c a).0 ≡ true))
  unfolding settle
  settle_accepts now c a e = (λ h. (ground arith, ground arith), λ h. ground arith)

  -- A response to a pending challenge is accepted exactly when it comes no later than the challenge
  -- expires and answers it: with the expected hash, within the latency limit, or with the expected
  -- output hash, by the type of the challenge.
  pub accepted_iff_Answers :
      (now : ℕ) (a : ChallengeResponse F) (e : Engine F) (c : StorageChallenge)
      → get a.challenge_id e.pending ≡ some c
      → ((validate_response now a e).2 ≡ true) ↔ ((a.responded_at ≤ c.expires_at) × Answers c a)
  accepted_iff_Answers now a e c q =
      let e' = record e { pending = delete a.challenge_id e.pending } in
      let (to, from) = settle_accepts now c a e' in
      let (yes_answer, answers) = check_answer_iff c a in
      rw (validate_known now a e q) (
        λ h. let t = to h in (ltb-false→le c.expires_at a.responded_at t.0, yes_answer t.1),
        λ h. from (le→ltb-false c.expires_at a.responded_at h.0, answers h.1),
      )

  settle_pending :
      (now : ℕ) (c : StorageChallenge) (a : ChallengeResponse F) (e : Engine F)
      → (settle now c a e).0.pending ≡ e.pending
  unfolding settle record_success record_failure
  settle_pending now c a e = ground arith

  -- A challenge is answered once: a second response to it, whatever it holds, is refused and leaves
  -- the engine as it is.
  pub validate_response_no_replay :
      (now now' : ℕ) (a b : ChallengeResponse F) (e : Engine F)
      → b.challenge_id ≡ a.challenge_id
      → let e' = (validate_response now a e).0 in
        ((validate_response now' b e').0 ≡ e') × ((validate_response now' b e').2 ≡ false)
  validate_response_no_replay now now' a b e same =
      let e' = (validate_response now a e).0 in
      let gone : get b.challenge_id e'.pending ≡ none =
        rw same (elim (Option-cases (get a.challenge_id e.pending)) [
          | inl q ↦ rw (validate_unknown now a e q) q
          | inr (c, q) ↦ rw (validate_known now a e q) (
              rw (settle_pending now c a (record e { pending = delete a.challenge_id e.pending }))
                (get-delete_self a.challenge_id e.pending))
        ]) in
      rw (validate_unknown now' b e' gone) (refl, refl)
