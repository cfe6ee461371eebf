-- ===== src/Aggregator/Levels.antt =====
-- The confidence and the quorum of one result of maestro/aggregator.py.
use maestro_orchestrator.Prelude.{
  ◌≡◌, ◌↔◌, refl, ap, ◌∙◌, sym, true, Option, none, some, List, [], ◌∷◌, arith, inl, inr,
  Option-cases, String, some-inj,
}
use maestro_orchestrator.Prelude.Float.{Float}
use maestro_orchestrator.Dissent.{DissentReport}
use maestro_orchestrator.Drift.{DriftReport}
use maestro_orchestrator.Aggregator.{
  high_confidence, Responses, Agreement, confidence_of, quorum_threshold, analyze_agreement,
  agreement_by_clusters, agreement_by_matching, response_list,
}
use maestro_orchestrator.Aggregator.Result.{Aggregate, aggregate_responses}

module _ {F : Type 0} ⦃f : Float F⦄ where
  matching_confidence :
      (rs : List String) (a : Agreement F)
      → agreement_by_matching rs ≡ some a
      → a.confidence ≡ confidence_of a.agreement_ratio
  unfolding agreement_by_matching
  matching_confidence [] a h = cc
  matching_confidence (r ∷ rs) a h = ground arith

  clusters_confidence :
      (rs : Responses) (report : DissentReport F)
      → let a = agreement_by_clusters rs report in a.confidence ≡ confidence_of a.agreement_ratio
  unfolding agreement_by_clusters
  clusters_confidence rs report = refl

  agreement_confidence :
      (rs : Responses) (report : Option (DissentReport F)) (a : Agreement F)
      → analyze_agreement rs report ≡ some a
      → a.confidence ≡ confidence_of a.agreement_ratio
  unfolding analyze_agreement
  agreement_confidence rs none a h = matching_confidence (response_list rs) a h
  agreement_confidence rs (some report) a h =
      ground (arith, clusters_confidence rs report, matching_confidence (response_list rs) a)

  confidence_high_iff :
      (r : F) → (confidence_of r ≡ high_confidence) ↔ (f.le quorum_threshold r ≡ true)
  unfolding confidence_of
  confidence_high_iff r = (λ h. ground arith, λ h. ground arith)

  -- In a result of `aggregate_responses` the quorum is met exactly when the confidence is high.
  pub quorum_iff_high :
      (rs : Responses) (drift : Option (DriftReport F)) (report : Option (DissentReport F))
      (a : Aggregate F)
      → aggregate_responses rs drift report ≡ some a
      → (a.quorum_met ≡ true) ↔ (a.confidence ≡ high_confidence)
  unfolding aggregate_responses
  quorum_iff_high rs drift report a h = elim (Option-cases (analyze_agreement rs report)) [
    | inl e ↦ let h' = rw (e, aggregate_responses) at h in absurd (cc)
    | inr (g, e) ↦
        let same = some-inj (rw (e, aggregate_responses) at h) in
        let quorum : f.le quorum_threshold g.agreement_ratio ≡ a.quorum_met =
          ap (λ (x : Aggregate F). x.quorum_met) same in
        let level : g.confidence ≡ a.confidence = ap (λ (x : Aggregate F). x.confidence) same in
        let (high→met, met→high) = confidence_high_iff g.agreement_ratio in
        let by_ratio = agreement_confidence rs report g e in
        (
          λ q. sym level ∙ by_ratio ∙ met→high (quorum ∙ q),
          λ q. sym quorum ∙ high→met (sym by_ratio ∙ level ∙ q),
        )
  ]
