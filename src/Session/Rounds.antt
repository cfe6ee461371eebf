-- ===== src/Session/Rounds.antt =====
-- What the rounds of maestro/deliberation.py leave of the responses.
use maestro_orchestrator.Prelude.{
  ℕ, zero, suc, ◌+◌, String, ◌≡◌, refl, ap, sym, ◌∙◌, Bool, true, false, not, Option, none, some,
  some-inj, List, [], ◌∷◌, ◌==◌, text_keys, if◌then◌else◌, ltb, arith, inl, inr, Bool-cases, eq_iff,
}
use maestro_orchestrator.Prelude.Lists.{length, keep, contains}
use maestro_orchestrator.Prelude.Dict.{Dict, get, set, get-set, keys, UniqueKeys}
use maestro_orchestrator.Session.Deliberation.{
  DeliberationPrompt, DeliberationReport, clean_names, deliberate_one, collect, next_round,
  later_rounds, deliberate,
}

pub get-collect :
    (is_error : String → Bool) (refine : String → DeliberationPrompt → Option String)
    (result : String → String) (names : List String) (n : String) (d : Dict String String)
    → get n (collect is_error refine result names d)
      ≡ (if contains names n then some (result n) else get n d)
unfolding collect
get-collect is_error refine result [] n d = refl
get-collect is_error refine result (name ∷ names) n d =
    let ih = get-collect is_error refine result names n (set name (result name) d) in
    elim (Bool-cases (contains names n)) [
      | inl q ↦ ih ∙ rw q (ground arith)
      | inr q ↦ elim (Bool-cases (name == n)) [
        | inl r ↦
            let same = (eq_iff name n).0 r in
            ih ∙ rw (q, r) (get-set name n (result name) d ∙ rw r (ap (λ x. some (result x)) same))
        | inr r ↦ ih ∙ rw (q, r) (get-set name n (result name) d ∙ rw r refl)
      ]
    ]

-- Names that are kept are keys.
not_kept :
    (test : String × String → Bool) (n : String) (d : Dict String String)
    → get n d ≡ none
    → contains (keys (keep test d)) n ≡ false
unfolding get
not_kept test n [] h = refl
not_kept test n ((k, v) ∷ d) h = elim (Bool-cases (k == n)) [
  | inl q ↦ absurd (let bad = rw q at h in cc)
  | inr q ↦
      let later = not_kept test n d (rw q at h) in
      elim (Bool-cases (test (k, v))) [ inl r ↦ rw (r, q) later | inr r ↦ rw r later ]
]

module _ (is_error : String → Bool) (refine : String → DeliberationPrompt → Option String) where
  -- An agent whose response is an error is not one of those that deliberate.
  error_not_clean :
      (n r : String) (d : Dict String String)
      → UniqueKeys d
      → get n d ≡ some r
      → is_error r ≡ true
      → contains (clean_names is_error refine d) n ≡ false
  unfolding clean_names get
  error_not_clean n r [] u found bad = refl
  error_not_clean n r ((k, v) ∷ d) u found bad = elim (Bool-cases (k == n)) [
    | inl q ↦
        let same : v ≡ r = some-inj (rw q at found) in
        let wrong : is_error v ≡ true = ap is_error same ∙ bad in
        let absent : get n d ≡ none = ap (λ i. get i d) (sym ((eq_iff k n).0 q)) ∙ u.0 in
        rw wrong (not_kept (λ e. not (is_error e.1)) n d absent)
    | inr q ↦
        let later = error_not_clean n r d u.1 (rw q at found) bad in
        elim (Bool-cases (is_error v)) [ inl e ↦ rw e later | inr e ↦ rw (e, q) later ]
  ]

  module _ (prompt : String) (agents clean : List String) where
    outside_kept :
        (left round : ℕ) (current : Dict String String) (n : String)
        → contains clean n ≡ false
        → get n (later_rounds is_error refine prompt agents clean left round current).1
          ≡ get n current
    unfolding later_rounds next_round
    outside_kept zero round current n h = refl
    outside_kept (suc left) round current n h =
        let next = next_round is_error refine prompt agents clean round current in
        outside_kept left (round + 1) next n h
        ∙ get-collect is_error refine
            (deliberate_one is_error refine prompt agents clean round current) clean n current
        ∙ rw h refl

    length-history :
        (left round : ℕ) (current : Dict String String)
        → length (later_rounds is_error refine prompt agents clean left round current).0 ≡ left
    unfolding later_rounds
    length-history zero round current = refl
    length-history (suc left) round current = ap suc (
        length-history left (round + 1)
          (next_round is_error refine prompt agents clean round current))

  pub deliberate_lem :
      (rounds : ℕ) (prompt : String) (agents : List String) (initial : Dict String String)
      → UniqueKeys initial
      → (report : DeliberationReport) × (deliberate is_error refine
            (suc rounds)
            prompt
            agents
            initial
          ≡ some report)
        × (report.skipped ≡ ltb (length (clean_names is_error refine initial)) 2)
        × (report.skipped ≡ false
            → (report.rounds_completed ≡ suc rounds) × (length report.history ≡ suc (suc rounds)))
        × ((n r : String)
            → get n initial ≡ some r
            → is_error r ≡ true
            → get n report.final_responses ≡ some r)
  unfolding deliberate
  deliberate_lem rounds prompt agents initial unique =
      let clean = clean_names is_error refine initial in
      elim (Bool-cases (ltb (length clean) 2)) [
        | inl q ↦ rw (q, deliberate) (_, refl, refl, λ h. absurd (cc), λ n r found bad. found)
        | inr q ↦
            let counted = length-history prompt agents clean (suc rounds) 1 initial in
            rw (q, deliberate)
              (
                _,
                refl,
                refl,
                λ h. (counted, ap suc counted),
                λ n r found bad.
                    outside_kept prompt agents clean (suc rounds) 1 initial n
                      (error_not_clean n r initial unique found bad)
                    ∙ found,
              )
      ]
