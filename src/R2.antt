-- ===== src/R2.antt =====
-- maestro/r2.py: `score_session` and `detect_signals` of `R2Engine`. The texts of flags, signal
-- types and severities are constructors.
use maestro_orchestrator.Prelude.{
  ℕ, zero, suc, String, Bool, true, false, not, Option, none, some, List, [], ◌∷◌, ◌++◌, ◌&&◌, ◌||◌,
  if◌then◌else◌,
}
use maestro_orchestrator.Prelude.Lists.{nonempty}
use maestro_orchestrator.Prelude.Float.{Float, clamped}
use maestro_orchestrator.Dissent.{DissentReport, DissentLevel, no_dissent, low, moderate, high}
use maestro_orchestrator.Drift.{DriftReport}
use maestro_orchestrator.Aggregator.{Confidence, high_confidence, medium_confidence, low_confidence}
pub mod Grades

pub data Grade : Type 0 where
  suspicious weak acceptable strong : Grade

pub data Flag : Type 0 where
  silent_collapse_flag compression_flag suspicious_consensus_flag high_dissent_flag : Flag
  quorum_not_met_flag : Flag
  outlier_flag : List String → Flag

pub record R2Score (F : Type 0) : Type 0 where
  pub grade : Grade
  pub confidence_score : F
  pub quorum_met : Bool
  pub internal_agreement : F
  pub ncg_drift : F
  pub silent_collapse : Bool
  pub compression_alert : Bool
  pub has_outliers : Bool
  pub flags : List Flag

-- `flags.append(x)` under a test.
abbrev pub flag_if : Bool → Flag → List Flag → List Flag
flag_if b x rest = if b then x ∷ rest else rest

unfoldable pub is_high : DissentLevel → Bool
is_high high = true
is_high _ = false

-- quorum_confidence in ("High", "Medium")
unfoldable pub quorum_of : Confidence → Bool
quorum_of high_confidence = true
quorum_of medium_confidence = true
quorum_of low_confidence = false

unfoldable pub grade_of : Bool → Bool → Bool → List Flag → Grade
grade_of suspect quorum high_dissent flags =
    if suspect
    then suspicious
    else if not quorum || high_dissent
    then weak
    else if nonempty flags
    then acceptable
    else strong

unfoldable pub flags_of : Bool → Bool → List String → Bool → Bool → Bool → List Flag
flags_of collapse compression outliers suspect high_dissent quorum =
    flag_if collapse silent_collapse_flag (
      flag_if compression compression_flag (
        flag_if (nonempty outliers) (outlier_flag outliers) (
          flag_if suspect suspicious_consensus_flag (
            flag_if high_dissent high_dissent_flag (flag_if (not quorum) quorum_not_met_flag [])))))

module _ {F : Type 0} ⦃f : Float F⦄ where
  unfoldable pub drift_of : Option (DriftReport F) → F
  drift_of none = f.lit 0 0
  drift_of (some d) = d.mean_semantic_distance

  unfoldable pub collapse_of : Option (DriftReport F) → Bool
  collapse_of none = false
  collapse_of (some d) = d.silent_collapse_detected

  unfoldable pub compression_of : Option (DriftReport F) → Bool
  compression_of none = false
  compression_of (some d) = d.compression_alert

  -- agreement > 0.9 and ncg_drift > 0.5
  unfoldable pub suspicious_consensus : F → F → Bool
  suspicious_consensus agreement drift = f.lt (f.lit 9 1) agreement && f.lt (f.lit 5 1) drift

  unfoldable pub confidence_score_of : F → Option (DriftReport F) → Bool → Bool → F
  unfolding drift_of clamped
  confidence_score_of agreement drift quorum collapse =
      let base = f.mul agreement (f.lit 4 1) in
      let with_drift : F = elim drift [
        | none ↦ f.add base (f.lit 3 1)
        | some d ↦ f.add base (f.mul (f.sub (f.lit 1 0) d.mean_semantic_distance) (f.lit 3 1))
      ] in
      let with_quorum = f.add with_drift (if quorum then f.lit 3 1 else f.lit 0 0) in
      f.round4 (clamped (if collapse then f.mul with_quorum (f.lit 5 1) else with_quorum))

  unfoldable pub score_session : DissentReport F → Option (DriftReport F) → Confidence → R2Score F
  unfolding drift_of collapse_of compression_of suspicious_consensus confidence_score_of flags_of
      grade_of is_high quorum_of
  score_session report drift confidence =
      let ncg_drift = drift_of drift in
      let collapse = collapse_of drift in
      let agreement = report.internal_agreement in
      let quorum = quorum_of confidence in
      let suspect = suspicious_consensus agreement ncg_drift in
      let high_dissent = is_high report.dissent_level in
      let flags =
        flags_of collapse (compression_of drift) report.outlier_agents suspect high_dissent
          quorum in
      record {
        grade = grade_of (collapse || suspect) quorum high_dissent flags;
        confidence_score = confidence_score_of agreement drift quorum collapse;
        quorum_met = quorum;
        internal_agreement = agreement;
        ncg_drift = ncg_drift;
        silent_collapse = collapse;
        compression_alert = compression_of drift;
        has_outliers = nonempty report.outlier_agents;
        flags = flags;
      }

pub data SignalType : Type 0 where
  persistent_outlier suspicious_consensus_signal compression healthy_dissent : SignalType
  agent_degradation : SignalType

pub data Severity : Type 0 where
  info warning critical : Severity

pub record ImprovementSignal : Type 0 where
  pub signal_type : SignalType
  pub severity : Severity
  pub affected_agents : List String

is_weak : Grade → Bool
is_weak weak = true
is_weak _ = false

module _ {F : Type 0} where
  unfoldable pub detect_signals : R2Score F → DissentReport F → List ImprovementSignal
  unfolding is_high is_weak
  detect_signals score report =
      (if score.has_outliers
        then record {
          signal_type = persistent_outlier;
          severity = warning;
          affected_agents = report.outlier_agents;
        }
          ∷ []
        else [])
      ++ (if score.silent_collapse
          then record {
            signal_type = suspicious_consensus_signal;
            severity = critical;
            affected_agents = [];
          }
            ∷ []
          else [])
      ++ (if score.compression_alert
          then record { signal_type = compression; severity = warning; affected_agents = [] } ∷ []
          else [])
      ++ (if is_high report.dissent_level && not score.has_outliers
          then record { signal_type = healthy_dissent; severity = info; affected_agents = [] } ∷ []
          else [])
      ++ (if is_weak score.grade && not score.quorum_met
          then record { signal_type = agent_degradation; severity = warning; affected_agents = [] }
            ∷ []
          else [])
