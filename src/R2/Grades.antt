-- ===== src/R2/Grades.antt =====
-- How the grade of maestro/r2.py hangs together with the flags, the signals and the quorum of
-- maestro/aggregator.py.
use maestro_orchestrator.Prelude.{
  ℕ, String, ◌≡◌, ◌↔◌, refl, Bool, true, false, Option, some, List, [], arith, inl, inr, Bool-cases,
  ◌||◌,
}
use maestro_orchestrator.Prelude.Lists.{Any, nonempty}
use maestro_orchestrator.Aggregator.Levels.{quorum_iff_high}
use maestro_orchestrator.Prelude.Float.{Float}
use maestro_orchestrator.Prelude.Dict.{Dict}
use maestro_orchestrator.Dissent.{DissentReport, analyze}
use maestro_orchestrator.Drift.{DriftReport, NcgOutput, analyze_drift}
use maestro_orchestrator.Aggregator.{Confidence, medium_confidence, Responses}
use maestro_orchestrator.Aggregator.Result.{Aggregate, aggregate_responses}
use maestro_orchestrator.R2.{
  strong, suspicious, score_session, grade_of, flags_of, quorum_of, detect_signals, drift_of,
  collapse_of, compression_of, suspicious_consensus, is_high, critical, suspicious_consensus_signal,
}

grade_strong :
    (a b e d q : Bool) (outliers : List String)
    → (grade_of (a || d) q e (flags_of a b outliers d e q) ≡ strong)
      ↔ (flags_of a b outliers d e q ≡ [])
unfolding grade_of flags_of
grade_strong a b e d q outliers = (λ h. ground arith, λ h. ground arith)

module _ {F : Type 0} ⦃f : Float F⦄ (report : DissentReport F) (drift : Option (DriftReport F))
    (c : Confidence) where
  -- A session has the grade strong exactly when it has no flag.
  pub strong_iff_no_flags :
      ((score_session report drift c).grade ≡ strong) ↔ ((score_session report drift c).flags ≡ [])
  unfolding score_session
  strong_iff_no_flags =
      grade_strong (collapse_of drift) (compression_of drift) (is_high report.dissent_level)
        (suspicious_consensus report.internal_agreement (drift_of drift)) (quorum_of c)
        report.outlier_agents

module _ {F : Type 0} ⦃f : Float F⦄ where
  -- A result with confidence Medium has not met the quorum of the aggregator, and is scored by R2 as
  -- one that has.
  pub medium_quorum_differs :
      (rs : Responses) (drift : Option (DriftReport F)) (report : DissentReport F) (a : Aggregate F)
      → aggregate_responses rs drift (some report) ≡ some a
      → a.confidence ≡ medium_confidence
      → (a.quorum_met ≡ false) × ((score_session report drift a.confidence).quorum_met ≡ true)
  unfolding score_session
  medium_quorum_differs rs drift report a h m = (
    elim (Bool-cases a.quorum_met) [
      | inl met ↦ absurd (let high = (quorum_iff_high rs drift (some report) a h).0 met in cc)
      | inr e ↦ e
    ],
    rw m refl,
  )

  -- A session with silent collapse is graded suspicious, and the critical signal of suspicious
  -- consensus is among its signals.
  pub collapse_is_critical :
      (report : DissentReport F) (d : DriftReport F) (c : Confidence)
      → d.silent_collapse_detected ≡ true
      → ((score_session report (some d) c).grade ≡ suspicious)
        × Any
            (λ s. (s.signal_type ≡ suspicious_consensus_signal) × (s.severity ≡ critical))
            (detect_signals (score_session report (some d) c) report)
  unfolding score_session detect_signals
  collapse_is_critical report d c h = (
    rw h refl,
    elim (Bool-cases (nonempty report.outlier_agents)) [
      | inl e ↦ rw (h, e) (inr (inl (refl, refl)))
      | inr e ↦ rw (h, e) (inl (refl, refl))
    ],
  )

  -- If the agents agree by more than 0.8 and their answers lie on average more than 0.3 from the
  -- headless baseline, then the session is suspicious, whatever its confidence, with a critical signal.
  agreeing_but_drifted :
      (distance : String → String → F) (words : String → ℕ) (prompt : String)
      (baseline : NcgOutput F) (outputs : Dict String String) (c : Confidence)
      → let report = analyze distance prompt outputs in
        let drift =
          analyze_drift distance words prompt baseline outputs (some report.internal_agreement) in
        f.lt (f.lit 8 1) report.internal_agreement ≡ true
        → f.lt (f.lit 3 1) drift.mean_semantic_distance ≡ true
        → ((score_session report (some drift) c).grade ≡ suspicious)
          × Any
              (λ s. (s.signal_type ≡ suspicious_consensus_signal) × (s.severity ≡ critical))
              (detect_signals (score_session report (some drift) c) report)
  unfolding analyze_drift
  agreeing_but_drifted distance words prompt baseline outputs c agree far =
      let report = analyze distance prompt outputs in
      let drift =
        analyze_drift distance words prompt baseline outputs (some report.internal_agreement) in
      let collapsed : drift.silent_collapse_detected ≡ true = rw (agree, far) refl in
      collapse_is_critical report drift c collapsed
