-- ===== src/Examples/Storage.antt =====
-- A challenge to a storage node, and responses to it.
use maestro_orchestrator.Prelude.{
  ℕ, ◌+◌, ◌*◌, ◌≤◌, String, ◌≡◌, ◌↔◌, refl, true, false, none, some, List, [], ◌∷◌, text_keys,
}
use maestro_orchestrator.Prelude.Dict.{get}
use maestro_orchestrator.Prelude.Float.{Fixed, fixed_float}
use maestro_orchestrator.StorageProof.{
  StorageChallenge, ChallengeResponse, Engine, byte_range_hash, validate_response, window_seconds,
}
use maestro_orchestrator.StorageProof.Challenges.{Draw}
use maestro_orchestrator.StorageProof.Responses.{
  Answers, accepted_iff_Answers, validate_response_no_replay,
}
use maestro_orchestrator.StorageProof.Invariants.{Call, issue, respond, contribute, evict}

abbrev range_hash : String → ℕ → ℕ → String
range_hash shard offset size = shard

abbrev canary_hash : String → String
canary_hash shard = shard

abbrev asked : StorageChallenge
asked = record {
  challenge_id = "c1";
  node_id = "a";
  shard_id = "s";
  challenge_type = byte_range_hash;
  issued_at = 1000;
  expires_at = 1000 + window_seconds * 1000000;
  byte_offset = some 0;
  byte_length = some 4096;
  expected_hash = some "s";
  expected_output_hash = none;
  max_latency_ms = none;
}

abbrev waiting : Engine Fixed
waiting = record { reputations = []; pending = ("c1", asked) ∷ []; saved = [] }

abbrev answer : ChallengeResponse Fixed
answer = record {
  challenge_id = "c1";
  node_id = "a";
  responded_at = 2000;
  response_hash = some "s";
  inference_output_hash = none;
  latency_ms = none;
  passed = false;
  failure_reason = none;
}

waits : get "c1" waiting.pending ≡ some asked
unfolding get
waits = refl

accepted_iff_Answers_example :
    ((validate_response 3000 answer waiting).2 ≡ true)
    ↔ ((2000 ≤ 1000 + window_seconds * 1000000) × Answers asked answer)
accepted_iff_Answers_example = accepted_iff_Answers 3000 answer waiting asked waits

validate_response_no_replay_example :
    let e = (validate_response 3000 answer waiting).0 in
    ((validate_response 4000 answer e).0 ≡ e) × ((validate_response 4000 answer e).2 ≡ false)
validate_response_no_replay_example =
    validate_response_no_replay 3000 4000 answer answer waiting refl

abbrev draws : List Draw
draws = record { id = "c1"; random = 5 } ∷ record { id = "c2"; random = 7 } ∷ []

abbrev day : List (Call Fixed)
day =
    issue 1000 (record { id = "c3"; random = 9 }) "b" "s" byte_range_hash
    ∷ respond 3000 answer
    ∷ contribute "a" 8000
    ∷ evict "b"
    ∷ []
