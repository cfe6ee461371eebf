-- ===== src/Session/Answers.antt =====
-- Which responses a session of maestro/orchestrator.py aggregates, and what it records of agents that fail.
use maestro_orchestrator.Prelude.{
  ℕ, zero, suc, String, ◌≡◌, refl, ap, sym, subst, ◌∙◌, Bool, true, false, not, Option, none, some,
  some-inj, List, [], ◌∷◌, text_keys, if◌then◌else◌, inl, inr, Bool-cases, Option-cases,
}
use maestro_orchestrator.Prelude.Lists.{keep, contains, nonempty, All, Any}
use maestro_orchestrator.Prelude.Dict.{Dict, get, set, values, UniqueKeys, set-UniqueKeys}
use maestro_orchestrator.Prelude.Float.{Float}
use maestro_orchestrator.Dissent.{DissentReport, analyze}
use maestro_orchestrator.Drift.{NcgOutput, DriftReport}
use maestro_orchestrator.Aggregator.{in_order}
use maestro_orchestrator.Aggregator.Result.{aggregate_responses}
use maestro_orchestrator.Plugins.{Returned}
use maestro_orchestrator.Session.{
  AgentError, failed_text, recorded, errors_of, gather, clean_responses, hooked, Request, Options,
  SessionOutcome, after_deliberation, ncg_drift, conclude, run_orchestration,
}
use maestro_orchestrator.Session.Deliberation.{
  DeliberationPrompt, DeliberationReport, collect, deliberate,
}
use maestro_orchestrator.Session.Rounds.{get-collect, deliberate_lem}

kept_clean :
    (is_error : String → Bool) (d : Dict String String)
    → All (λ r. is_error r ≡ false) (values (keep (λ e. not (is_error e.1)) d))
kept_clean is_error [] = tt
kept_clean is_error ((k, v) ∷ d) = elim (Bool-cases (is_error v)) [
  | inl e ↦ rw e (kept_clean is_error d)
  | inr e ↦ rw e (e, kept_clean is_error d)
]

some_kept :
    (is_error : String → Bool) (d : Dict String String)
    → Any (λ e. is_error e.1 ≡ false) d
    → nonempty (keep (λ e. not (is_error e.1)) d) ≡ true
some_kept is_error [] h = absurd h
some_kept is_error ((k, v) ∷ d) h = elim (Bool-cases (is_error v)) [
  | inr e ↦ rw e refl
  | inl e ↦ elim h [ inl here ↦ absurd (cc) | inr later ↦ rw e (some_kept is_error d later) ]
]

clean_responses_lem :
    (is_error : String → Bool) (d : Dict String String)
    → Any (λ e. is_error e.1 ≡ false) d
    → All (λ r. is_error r ≡ false) (values (clean_responses is_error d))
unfolding clean_responses
clean_responses_lem is_error d h = rw (some_kept is_error d h) (kept_clean is_error d)

gather-collect :
    (is_error : String → Bool) (refine : String → DeliberationPrompt → Option String)
    (fetched : String → Option String) (names : List String) (d : Dict String String)
    → gather fetched names d ≡ collect is_error refine (λ n. recorded n (fetched n)) names d
unfolding gather collect
gather-collect is_error refine fetched [] d = refl
gather-collect is_error refine fetched (n ∷ names) d =
    gather-collect is_error refine fetched names (set n (recorded n (fetched n)) d)

gather-UniqueKeys :
    (fetched : String → Option String) (names : List String) (d : Dict String String)
    → UniqueKeys d
    → UniqueKeys (gather fetched names d)
unfolding gather
gather-UniqueKeys fetched [] d u = u
gather-UniqueKeys fetched (n ∷ names) d u =
    gather-UniqueKeys fetched names (set n (recorded n (fetched n)) d)
      (set-UniqueKeys n (recorded n (fetched n)) d u)

-- The text of an agent whose query has raised.
fetched_text :
    (is_error : String → Bool) (refine : String → DeliberationPrompt → Option String)
    (fetched : String → Option String) (names : List String) (a : String)
    → contains names a ≡ true
    → fetched a ≡ none
    → get a (gather fetched names []) ≡ some (failed_text a)
unfolding recorded
fetched_text is_error refine fetched names a among raised =
    ap (get a) (gather-collect is_error refine fetched names [])
    ∙ get-collect is_error refine (λ n. recorded n (fetched n)) names a []
    ∙ rw (among, raised, recorded) refl

-- A deliberation, also one that is off, skipped or refused, leaves an error as it is.
error_stays :
    (is_error : String → Bool) (refine : String → DeliberationPrompt → Option String)
    (enabled : Bool) (rounds : ℕ) (prompt : String) (agents : List String)
    (initial : Dict String String) (a r : String)
    → UniqueKeys initial
    → get a initial ≡ some r
    → is_error r ≡ true
    → get a (
        after_deliberation initial
          (if enabled then deliberate is_error refine rounds prompt agents initial else none))
      ≡ some r
unfolding after_deliberation
error_stays is_error refine false rounds prompt agents initial a r u found bad = found
error_stays is_error refine true zero prompt agents initial a r u found bad =
    unfold deliberate in found
error_stays is_error refine true (suc rounds) prompt agents initial a r u found bad =
    let (report, made, _, _, kept) =
      deliberate_lem is_error refine rounds prompt agents initial u in
    elim (Bool-cases report.skipped) [
      | inl q ↦ rw (made, q, after_deliberation) found
      | inr q ↦ rw (made, q, after_deliberation) (kept a r found bad)
    ]

module _ {F : Type 0} ⦃f : Float F⦄ (is_error : String → Bool) (http_code : String → Option ℕ)
    (mentions : String → String → Bool) (fetch : String → String → Option String)
    (refine : String → DeliberationPrompt → Option String)
    (generate : String → Option (NcgOutput F)) (distance : String → String → F) (words : String → ℕ)
    (on_request : String → Request → Returned Request)
    (on_responses : String → List String → Returned (List String)) where
  abbrev concluded :
      Options
      → String
      → Dict String String
      → List AgentError
      → Option DeliberationReport
      → Option (SessionOutcome F)
  concluded =
      conclude is_error http_code mentions fetch refine generate distance words on_request
        on_responses

  conclude_lem :
      (o : Options) (prompt : String) (named : Dict String String) (errors : List AgentError)
      (deliberation : Option DeliberationReport) (s : SessionOutcome F)
      → concluded (record o { mod_manager = none }) prompt named errors deliberation ≡ some s
      → (s.named_responses ≡ named) × (s.responses ≡ values (clean_responses is_error named))
  unfolding conclude hooked
  conclude_lem o prompt named errors deliberation s h =
      let input = clean_responses is_error named in
      let dissent : DissentReport F = analyze distance prompt input in
      let drift : Option (DriftReport F) =
        ncg_drift is_error http_code mentions fetch refine generate distance words on_request
          on_responses o.ncg_enabled prompt input dissent.internal_agreement in
      elim (Option-cases (aggregate_responses (in_order (values input)) drift (some dissent))) [
        | inl e ↦ absurd (let bad = rw (e, conclude) at h in cc)
        | inr (final, e) ↦
            let made = some-inj (rw (e, conclude) at h) in
            (
              sym (ap (λ (t : SessionOutcome F). t.named_responses) made),
              sym (ap (λ (t : SessionOutcome F). t.responses) made),
            )
      ]

  -- In a session without plugins, if one of the responses that are recorded at the end is no error, then
  -- no error is among the responses that are aggregated. And an agent whose query has raised, with or
  -- without a deliberation after that, has the text of a failure recorded, if that is taken for an error.
  pub run_orchestration_errors :
      (o : Options) (asked : Request) (s : SessionOutcome F)
      → run_orchestration is_error http_code mentions fetch refine generate distance words
          on_request on_responses
          (record o { mod_manager = none })
          asked
        ≡ some s
      → (Any (λ e. is_error e.1 ≡ false) s.named_responses
          → All (λ r. is_error r ≡ false) s.responses)
        × ((a : String)
            → contains asked.agents a ≡ true
            → fetch a asked.prompt ≡ none
            → is_error (failed_text a) ≡ true
            → get a s.named_responses ≡ some (failed_text a))
  unfolding run_orchestration hooked
  run_orchestration_errors o asked s h =
      let fetched = λ (name : String). fetch name asked.prompt in
      let initial = gather fetched asked.agents [] in
      let errors = errors_of http_code mentions is_error fetched asked.agents in
      let deliberation : Option DeliberationReport =
        if o.deliberation_enabled
        then deliberate is_error refine o.deliberation_rounds asked.prompt asked.agents initial
        else none in
      let named = after_deliberation initial deliberation in
      let (same_named, same_responses) =
        conclude_lem o asked.prompt named errors deliberation s h in
      (
        λ good.
            subst (λ (l : List String). All (λ r. is_error r ≡ false) l) (sym same_responses)
              (clean_responses_lem is_error named (
                subst (λ (d : Dict String String). Any (λ e. is_error e.1 ≡ false) d) same_named
                  good)),
        λ a asked_for raised bad.
            let first : get a initial ≡ some (failed_text a) =
              fetched_text is_error refine fetched asked.agents a asked_for raised in
            ap (get a) same_named
            ∙ error_stays is_error refine o.deliberation_enabled o.deliberation_rounds asked.prompt
                asked.agents initial a (failed_text a)
                (gather-UniqueKeys fetched asked.agents [] tt) first bad,
      )
