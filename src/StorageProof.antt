-- ===== src/StorageProof.antt =====
-- maestro/storage_proof.py: challenges to storage nodes, the validation of their responses, and the
-- reputations that follow. A time stamp is the number of microseconds that it stands for. The draws
-- of `uuid4` and `urandom` and the SHA-256 of the two formatted texts are parameters.
use maestro_orchestrator.Prelude.{
  ℕ, zero, suc, ◌+◌, ◌*◌, ◌-◌, ◌%◌, String, Bool, true, false, not, Option, none, some, List, [],
  ◌∷◌, ◌++◌, ◌&&◌, if◌then◌else◌, leb, ltb, ◌==◌, text_keys,
}
use maestro_orchestrator.Prelude.Lists.{length, take_last}
use maestro_orchestrator.Prelude.Dict.{Dict, get, set, delete}
use maestro_orchestrator.Prelude.Float.{Float, mean}
use maestro_orchestrator.Registry.{WeightHost, Shard}
pub mod Challenges
pub mod Responses
pub mod Invariants

pub data ChallengeType : Type 0 where
  byte_range_hash latency_probe canary_inference unknown_type : ChallengeType

pub record StorageChallenge : Type 0 where
  pub challenge_id : String
  pub node_id : String
  pub shard_id : String
  pub challenge_type : ChallengeType
  pub issued_at : ℕ
  pub expires_at : ℕ
  pub byte_offset : Option ℕ
  pub byte_length : Option ℕ
  pub expected_hash : Option String
  pub expected_output_hash : Option String
  pub max_latency_ms : Option ℕ

pub data FailureReason : Type 0 where
  unknown_or_expired too_late hash_mismatch latency_exceeds_max missing_latency canary_mismatch :
      FailureReason

pub record ChallengeResponse (F : Type 0) : Type 0 where
  pub challenge_id : String
  pub node_id : String
  pub responded_at : ℕ
  pub response_hash : Option String
  pub inference_output_hash : Option String
  pub latency_ms : Option F
  pub passed : Bool
  pub failure_reason : Option FailureReason

pub data TrustStatus : Type 0 where
  trusted on_probation untrusted evicted_node : TrustStatus

pub record NodeReputation (F : Type 0) : Type 0 where
  pub node_id : String
  pub challenges_issued : ℕ
  pub challenges_passed : ℕ
  pub challenges_failed : ℕ
  pub challenge_pass_rate : F
  pub mean_latency_ms : F
  pub r2_contribution_scores : List F
  pub reputation_score : F
  pub last_challenge : Option ℕ
  pub last_failure : Option ℕ
  pub status : TrustStatus

-- The engine: reputations, pending challenges, and what reputations.json holds.
pub record Engine (F : Type 0) : Type 0 where
  pub reputations : Dict String (NodeReputation F)
  pub pending : Dict String StorageChallenge
  pub saved : Dict String (NodeReputation F)

abbrev pub window_seconds : ℕ
window_seconds = 60

abbrev pub default_max_latency_ms : ℕ
default_max_latency_ms = 5000

-- a == b for two optional strings.
unfoldable pub same_text : Option String → Option String → Bool
same_text none none = true
same_text none (some b) = false
same_text (some a) none = false
same_text (some a) (some b) = a == b

module _ {F : Type 0} ⦃f : Float F⦄ where
  -- NodeReputation(node_id=node_id)
  unfoldable pub new_reputation : String → NodeReputation F
  new_reputation k = record {
    node_id = k;
    challenges_issued = 0;
    challenges_passed = 0;
    challenges_failed = 0;
    challenge_pass_rate = f.lit 1 0;
    mean_latency_ms = f.lit 0 0;
    r2_contribution_scores = [];
    reputation_score = f.lit 1 0;
    last_challenge = none;
    last_failure = none;
    status = trusted;
  }

  -- self._reputations.get(k, NodeReputation(node_id=k)), which `setdefault` also stores.
  unfoldable pub get_reputation : String → Engine F → NodeReputation F
  unfolding new_reputation
  get_reputation k e = elim (get k e.reputations) [ none ↦ new_reputation k | some r ↦ r ]

  unfoldable pub save_reputations : Engine F → Engine F
  save_reputations e = record e { saved = e.reputations }

  unfoldable pub update_pass_rate : NodeReputation F → NodeReputation F
  update_pass_rate r = record r {
    challenge_pass_rate = elim (r.challenges_passed + r.challenges_failed) [
      | zero ↦ f.lit 1 0
      | suc n ↦ f.div (f.lit r.challenges_passed 0) (f.lit (suc n) 0)
    ];
  }

  -- The mean of the last 20 contributions, 0.5 where there is none.
  unfoldable pub r2_mean : List F → F
  r2_mean [] = f.lit 5 1
  r2_mean (x ∷ xs) = mean (take_last 20 (x ∷ xs))

  unfoldable pub trust_for : F → TrustStatus → TrustStatus
  trust_for score s =
      if f.lt score (f.lit 3 1)
      then evicted_node
      else if f.lt score (f.lit 7 1)
      then on_probation
      else elim s [ on_probation ↦ trusted | untrusted ↦ trusted | other ↦ other ]

  unfoldable pub score_of : NodeReputation F → F
  unfolding r2_mean
  score_of r = f.round4 (
      f.add (f.mul (f.lit 7 1) r.challenge_pass_rate)
        (f.mul (f.lit 3 1) (r2_mean r.r2_contribution_scores)))

  unfoldable pub update_reputation_score : NodeReputation F → NodeReputation F
  unfolding score_of trust_for
  update_reputation_score r = record r {
    reputation_score = score_of r;
    status = trust_for (score_of r) r.status;
  }

  unfoldable pub with_latency : Option F → NodeReputation F → NodeReputation F
  with_latency none r = r
  with_latency (some ms) r =
      let total = r.challenges_passed in
      record r {
        mean_latency_ms =
            f.div (f.add (f.mul r.mean_latency_ms (f.lit (total - 1) 0)) ms) (f.lit total 0);
      }

  unfoldable pub record_success : String → Option F → Engine F → Engine F
  unfolding get_reputation update_pass_rate with_latency update_reputation_score save_reputations
  record_success k latency e =
      let r = get_reputation k e in
      let counted = update_pass_rate (record r { challenges_passed = r.challenges_passed + 1 }) in
      let scored = update_reputation_score (with_latency latency counted) in
      save_reputations (record e { reputations = set k scored e.reputations })

  unfoldable pub record_failure : ℕ → String → Engine F → Engine F
  unfolding get_reputation update_pass_rate update_reputation_score save_reputations
  record_failure now k e =
      let r = get_reputation k e in
      let counted =
        update_pass_rate
          (record r { challenges_failed = r.challenges_failed + 1; last_failure = some now }) in
      save_reputations
        (record e { reputations = set k (update_reputation_score counted) e.reputations })

  unfoldable pub add_r2_contribution : String → F → Engine F → Engine F
  unfolding get_reputation update_reputation_score save_reputations
  add_r2_contribution k score e =
      let r = get_reputation k e in
      let scores = r.r2_contribution_scores ++ score ∷ [] in
      let kept = if ltb 100 (length scores) then take_last 100 scores else scores in
      save_reputations (record e {
        reputations =
            set k (update_reputation_score (record r { r2_contribution_scores = kept }))
              e.reputations;
      })

  -- A node without a record has a fresh one that is not stored, so nothing is saved for it but what
  -- was there.
  unfoldable pub evict_if_necessary : String → Engine F → Engine F × Bool
  unfolding get_reputation save_reputations
  evict_if_necessary k e =
      let r = get_reputation k e in
      if f.lt r.reputation_score (f.lit 3 1)
      then (
        save_reputations (elim (get k e.reputations) [
          | none ↦ e
          | some old ↦ record e {
            reputations = set k (record old { status = evicted_node }) e.reputations;
          }
        ]),
        true,
      )
      else (e, false)

  unfoldable pub latency_check :
      Option F → Option ℕ → Option FailureReason → Bool × Option FailureReason
  latency_check none limit reason = (false, some missing_latency)
  latency_check (some ms) none reason = (false, some missing_latency)
  latency_check (some ms) (some limit) reason =
      if f.le ms (f.lit limit 0) then (true, reason) else (false, some latency_exceeds_max)

  -- The outcome of the checks by type, and the reason that is left on a failure.
  unfoldable pub check_answer : StorageChallenge → ChallengeResponse F → Bool × Option FailureReason
  unfolding same_text latency_check
  check_answer c a = elim c.challenge_type [
    | byte_range_hash ↦
        if same_text a.response_hash c.expected_hash
        then (true, a.failure_reason)
        else (false, some hash_mismatch)
    | latency_probe ↦ latency_check a.latency_ms c.max_latency_ms a.failure_reason
    | canary_inference ↦
        if same_text a.inference_output_hash c.expected_output_hash
        then (true, a.failure_reason)
        else (false, some canary_mismatch)
    | unknown_type ↦ (false, a.failure_reason)
  ]

  unfoldable pub settle :
      ℕ → StorageChallenge → ChallengeResponse F → Engine F → Engine F × ChallengeResponse F × Bool
  unfolding check_answer record_success record_failure
  settle now c a e =
      if ltb c.expires_at a.responded_at
      then (
        record_failure now a.node_id e,
        record a { passed = false; failure_reason = some too_late },
        false,
      )
      else (let (ok, reason) = check_answer c a in
          (
            if ok then record_success a.node_id a.latency_ms e else record_failure now a.node_id e,
            record a { passed = ok; failure_reason = reason },
            ok,
          ))

  -- The engine, the response as it is marked, and what is returned. `now` is the clock of
  -- `_record_failure`.
  unfoldable pub validate_response :
      ℕ → ChallengeResponse F → Engine F → Engine F × ChallengeResponse F × Bool
  unfolding settle
  validate_response now a e = elim (get a.challenge_id e.pending) [
    | none ↦ (e, record a { passed = false; failure_reason = some unknown_or_expired }, false)
    | some c ↦ settle now c a (record e { pending = delete a.challenge_id e.pending })
  ]
