-- ===== src/Injection/Injector.antt =====
-- `CodeInjector` of maestro/applicator.py. `World` is what injections change: the attributes of modules as
-- texts, the source files with the backups of the log, and runtime_config.json. Parameters stand for the
-- import system, the rewriting of a source by `ast`, and `coerce`, which is `coerce_value` over Python's floats.
use Prim.Native.String.{◌++◌ as join_text}
use maestro_orchestrator.Prelude.{
  ℕ, String, Bool, true, false, not, Option, none, some, List, [], ◌∷◌, ◌++◌, ◌==◌, text_keys,
  if◌then◌else◌,
}
use maestro_orchestrator.Prelude.Dict.{Dict, get, set, delete}
use maestro_orchestrator.Prelude.Float.{Float}
use maestro_orchestrator.Injection.{
  InjectionType, runtime, source_patch, config, RollbackEntry, RollbackLog, applied, is_applied,
  mark_rolled_back, get_entry, get_active_by_cycle, Proposal, promoted, ChangeType,
  parameter_update, code_patch, config_change, prompt_rewrite, architecture_refactor, other_change,
  Guard, Bounds, Refusal, is_injectable, check_rate_limit, record_injection,
}

pub record World : Type 0 where
  pub attributes : Dict String (Dict String String)
  pub files : Dict String String
  pub backups : Dict String String
  pub settings : Option (Dict String String)

pub record Injector : Type 0 where
  pub world : World
  pub log : RollbackLog
  pub guard : Guard

-- What an injection has come to: `error` is an exception.
pub data Outcome : Type 0 where
  injected : RollbackEntry → Outcome
  error : Outcome

pub data InjectionResult : Type 0 where
  applied_as : InjectionType → String → InjectionResult
  refused : Refusal → InjectionResult
  rate_limited : InjectionResult
  dry : InjectionType → InjectionResult
  failed : InjectionType → InjectionResult

unfoldable pub classify_injection : ChangeType → InjectionType
classify_injection parameter_update = runtime
classify_injection code_patch = source_patch
classify_injection architecture_refactor = source_patch
classify_injection config_change = config
classify_injection prompt_rewrite = config
classify_injection other_change = runtime

unfoldable pub attributes_of : String → World → Dict String String
attributes_of m w = elim (get m w.attributes) [ none ↦ [] | some d ↦ d ]

-- The settings that are there, none where the file is missing.
unfoldable pub settings_of : World → Dict String String
settings_of w = elim w.settings [ none ↦ [] | some d ↦ d ]

abbrev pub value_or_blank : Option String → String
value_or_blank none = ""
value_or_blank (some x) = x

-- config.get(target, "")
unfoldable pub setting : String → World → String
unfolding settings_of
setting k w = value_or_blank (get k (settings_of w))

unfoldable pub new_entry :
    String → String → ℕ → InjectionType → Proposal → String → String → Option String → RollbackEntry
new_entry id cycle now kind p original value path = record {
  rollback_id = id;
  proposal_id = p.proposal_id;
  cycle_id = cycle;
  injection_type = kind;
  module_name = p.module_name;
  target_name = p.target_name;
  original_value = original;
  new_value = value;
  file_path = path;
  status = applied;
  timestamp = now;
  rolled_back_at = none;
}

-- `_resolve_file`: the path itself, or the one under maestro/.
unfoldable pub resolve_file : String → World → String
resolve_file path w = elim (get path w.files) [
  | some _ ↦ path
  | none ↦ elim (get (join_text "maestro/" path) w.files) [
    | some _ ↦ join_text "maestro/" path
    | none ↦ path
  ]
]

unfoldable pub inject_config : String → String → ℕ → Proposal → World → World × Outcome
unfolding new_entry setting settings_of
inject_config id cycle now p w = (
  record w { settings = some (set p.target_name p.proposed_value (settings_of w)) },
  injected (new_entry id cycle now config p (setting p.target_name w) p.proposed_value none),
)

unfoldable pub rollback_config : RollbackEntry → World → World
rollback_config e w = elim w.settings [
  | none ↦ w
  | some d ↦ record w {
    settings = some (
        if e.original_value == ""
        then delete e.target_name d
        else set e.target_name e.original_value d);
  }
]

-- `str` of what `_coerce_value` returns: `number` is the text of `float(...)`, `none` where it raises.
unfoldable pub coerce_value : (String → Option String) → String → String → String
coerce_value number value reference = elim (number reference) [
  | none ↦ value
  | some _ ↦ elim (number value) [ none ↦ value | some x ↦ x ]
]

module _ (importable : String → Bool) (coerce : String → String → String)
    (patch : String → String → String → Option String) (reloads : String → String → Bool) where
  unfoldable pub inject_runtime : String → String → ℕ → Proposal → World → World × Outcome
  unfolding new_entry attributes_of
  inject_runtime id cycle now p w =
      if not (importable p.module_name)
      then (w, error)
      else elim (get p.target_name (attributes_of p.module_name w)) [
        | none ↦ (w, error)
        | some original ↦
            let value = coerce p.proposed_value original in
            (
              record w {
                attributes =
                    set p.module_name (set p.target_name value (attributes_of p.module_name w))
                      w.attributes;
              },
              injected (new_entry id cycle now runtime p original value none),
            )
      ]

  -- The world, the log, and whether the import and the reload behind the write went through.
  unfoldable pub inject_source :
      String → String → ℕ → Proposal → World → World × Option RollbackEntry × Outcome
  unfolding new_entry resolve_file
  inject_source id cycle now p w =
      let path = resolve_file p.file_path w in
      elim (get path w.files) [
        | none ↦ (w, none, error)
        | some source ↦ elim (patch source p.target_name p.proposed_value) [
          | none ↦ (w, none, error)
          | some patched ↦
              let e =
                new_entry id cycle now source_patch p p.current_value p.proposed_value
                  (some path) in
              (
                record w { files = set path patched w.files; backups = set id source w.backups },
                some e,
                if reloads p.module_name patched then injected e else error,
              )
        ]
      ]

  unfoldable pub rollback_runtime : RollbackEntry → World → Option World
  unfolding attributes_of
  rollback_runtime e w =
      if not (importable e.module_name)
      then none
      else some (record w {
        attributes =
            set e.module_name
              (set e.target_name (coerce e.original_value e.new_value)
                (attributes_of e.module_name w))
              w.attributes;
      })

  -- The world, and whether no exception was raised.
  unfoldable pub rollback_source : RollbackEntry → World → World × Bool
  rollback_source e w = elim e.file_path [
    | none ↦ (w, false)
    | some path ↦ elim (get e.rollback_id w.backups) [
      | none ↦ (w, true)
      | some source ↦ (record w { files = set path source w.files }, reloads e.module_name source)
    ]
  ]

  unfoldable pub revert : RollbackEntry → World → World × Bool
  revert e w = elim e.injection_type [
    | runtime ↦ elim (rollback_runtime e w) [ none ↦ (w, false) | some w' ↦ (w', true) ]
    | source_patch ↦ rollback_source e w
    | config ↦ (rollback_config e w, true)
  ]

  unfoldable pub rollback : ℕ → String → Injector → Injector × Bool
  rollback now id i = elim (get_entry id i.log) [
    | none ↦ (i, false)
    | some e ↦
        if not (is_applied e.status)
        then (i, false)
        else (let (w, ok) = revert e i.world in
            if ok
            then (record i { world = w; log = (mark_rolled_back now id i.log).0 }, true)
            else (record i { world = w }, false))
  ]

  unfoldable pub rollback_all : ℕ → List RollbackEntry → Injector → Injector × List (String × Bool)
  rollback_all now [] i = (i, [])
  rollback_all now (e ∷ es) i =
      let (i', ok) = rollback now e.rollback_id i in
      let (i'', rest) = rollback_all now es i' in (i'', (e.rollback_id, ok) ∷ rest)

  unfoldable pub rollback_cycle : ℕ → String → Injector → Injector × List (String × Bool)
  unfolding rollback_all get_active_by_cycle
  rollback_cycle now cycle i = rollback_all now (get_active_by_cycle cycle i.log) i

  -- What the log has when an injection is through.
  logged : Outcome → RollbackLog → RollbackLog
  logged error log = log
  logged (injected e) log = log ++ e ∷ []

  -- The injection of a type: the injector, and the outcome.
  unfoldable pub inject :
      InjectionType → String → String → ℕ → Proposal → Injector → Injector × Outcome
  unfolding logged
  inject runtime id cycle now p i =
      let (w, out) = inject_runtime id cycle now p i.world in
      (record i { world = w; log = logged out i.log }, out)
  inject source_patch id cycle now p i =
      let (w, entry, out) = inject_source id cycle now p i.world in
      (record i { world = w; log = elim entry [ none ↦ i.log | some e ↦ i.log ++ e ∷ [] ] }, out)
  inject config id cycle now p i =
      let (w, out) = inject_config id cycle now p i.world in
      (record i { world = w; log = logged out i.log }, out)

  module _ {F : Type 0} ⦃f : Float F⦄ (number : String → Option F)
      (thresholds : Dict String (List (Bounds F))) (temperatures : List (Bounds F)) where
    -- `apply`: the injector, the proposal as it is marked, and the result. `now` is the clock throughout.
    unfoldable pub apply :
        String → String → ℕ → Bool → Proposal → Injector → Injector × Proposal × InjectionResult
    apply id cycle now dry_run p i = elim (is_injectable number thresholds temperatures i.guard p) [
      | some r ↦ (i, p, refused r)
      | none ↦
          let (g, free) = check_rate_limit now i.guard in
          let checked = record i { guard = g } in
          let kind = classify_injection p.change_type in
          if not free
          then (checked, p, rate_limited)
          else if dry_run
          then (checked, p, dry kind)
          else (let (done, out) = inject kind id cycle now p checked in
              elim out [
                | error ↦ (done, p, failed kind)
                | injected e ↦ (
                  record done { guard = record_injection now done.guard },
                  record p { status = promoted },
                  applied_as kind e.rollback_id,
                )
              ])
    ]
