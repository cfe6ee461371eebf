-- ===== src/Router/Dissenter.antt =====
-- Whom `select_dissenter` of maestro/router/conformity.py chooses.
use maestro_orchestrator.Prelude.{
  ℕ, ◌≤◌, String, ◌≡◌, refl, subst, ◌∙◌, Bool, false, some, some-inj, List, [], ◌∷◌, text_keys, ltb,
  arith, inl, inr, Bool-cases, Option-cases,
}
use maestro_orchestrator.Prelude.Lists.{length, Any, All, All-map}
use maestro_orchestrator.Prelude.Float.{Float}
use maestro_orchestrator.Router.Conformity.{
  ConformitySession, ConformityWindow, relevant, conformity_score, candidates, comes_first,
  foremost, select_dissenter,
}

module _ {F : Type 0} ⦃f : Float F⦄ (decay : F → ℕ → F) (before : String → String → Bool)
    (sessions : List ConformitySession) (w : ConformityWindow F) where
  -- An agent that may be chosen: it took part in enough sessions, and its score is not below the floor.
  abbrev pub IsEligible : String → F → Type 0
  IsEligible agent score =
      (w.n_min ≤ length (relevant agent sessions w))
      × (conformity_score decay before agent sessions w ≡ some score)
      × (f.lt score w.floor ≡ false)

  score_counts :
      (agent : String) (score : F)
      → conformity_score decay before agent sessions w ≡ some score
      → w.n_min ≤ length (relevant agent sessions w)
  unfolding conformity_score
  score_counts agent score h =
      elim (Bool-cases (ltb (length (relevant agent sessions w)) w.n_min)) [
        | inr q ↦ ground arith
        | inl q ↦ absurd (let bad = rw (q, conformity_score) at h in cc)
      ]

  candidates-IsEligible :
      (agents : List String)
      → All
          (λ c. Any (λ a. a ≡ c.1) agents × IsEligible c.1 c.0)
          (candidates decay before agents sessions w)
  unfolding candidates
  candidates-IsEligible [] = tt
  candidates-IsEligible (agent ∷ agents) =
      let later =
        All-map {P = λ c. Any (λ a. a ≡ c.1) agents × IsEligible c.1 c.0}
          {Q = λ c. Any (λ a. a ≡ c.1) (agent ∷ agents) × IsEligible c.1 c.0}
          (λ c h. (inr h.0, h.1)) (candidates decay before agents sessions w)
          (candidates-IsEligible agents) in
      elim (Option-cases (conformity_score decay before agent sessions w)) [
        | inl e ↦ rw (e, candidates) later
        | inr (score, e) ↦ elim (Bool-cases (f.lt score w.floor)) [
          | inl q ↦ rw (e, q, candidates) later
          | inr q ↦ rw (e, q, candidates) ((inl refl, (score_counts agent score e, e, q)), later)
        ]
      ]

  foremost-Any :
      (P : F × String → Type 0) (cs : List (F × String)) (c : F × String)
      → All P cs
      → foremost decay before cs ≡ some c
      → P c
  unfolding foremost
  foremost-Any P [] c h e = absurd (cc)
  foremost-Any P (d ∷ cs) c h e = elim (Option-cases (foremost decay before cs)) [
    | inl q ↦ let same : some d ≡ some c = rw (q, foremost) at e in subst P (some-inj same) h.0
    | inr (best, q) ↦ elim (Bool-cases (comes_first decay before best d)) [
      | inl r ↦
          let same : some best ≡ some c = rw (q, r, foremost) at e in
          foremost-Any P cs c h.1 (q ∙ same)
      | inr r ↦ let same : some d ≡ some c = rw (q, r, foremost) at e in subst P (some-inj same) h.0
    ]
  ]

  -- The agent that is chosen is one of those asked about, took part in at least n_min sessions, and has a
  -- score that is not below the floor.
  pub select_dissenter-IsEligible :
      (agents : List String) (agent : String)
      → select_dissenter decay before agents sessions w ≡ some agent
      → Any (λ a. a ≡ agent) agents × ((score : F) × IsEligible agent score)
  unfolding select_dissenter
  select_dissenter-IsEligible agents agent h =
      let cs = candidates decay before agents sessions w in
      elim (Option-cases (foremost decay before cs)) [
        | inl e ↦ absurd (let bad = rw (e, select_dissenter) at h in cc)
        | inr ((score, name), e) ↦
            let same : name ≡ agent = some-inj (rw (e, select_dissenter) at h) in
            let (among, eligible) =
              foremost-Any (λ c. Any (λ a. a ≡ c.1) agents × IsEligible c.1 c.0) cs (score, name)
                (candidates-IsEligible agents) e in
            subst (λ n. Any (λ a. a ≡ n) agents × ((x : F) × IsEligible n x)) same
              (among, (score, eligible))
      ]
