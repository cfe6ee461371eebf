-- ===== src/Examples/Injections.antt =====
-- Injections into a system with one setting, one source and one attribute.
use maestro_orchestrator.Prelude.{
  if◌then◌else◌, ◌==◌, String, ◌≡◌, refl, Bool, true, Option, none, some, [], ◌∷◌, text_keys,
}
use maestro_orchestrator.Prelude.Dict.{get}
use maestro_orchestrator.Prelude.Float.{Fixed, fixed_float}
use maestro_orchestrator.Injection.{
  source_patch, Proposal, validated, ChangeType, code_patch, get_entry,
}
use maestro_orchestrator.Injection.Injector.{
  coerce_value, Injector, inject, attributes_of, rollback, resolve_file,
}
use maestro_orchestrator.Injection.Restore.{rollback_restores_source}

abbrev importable : String → Bool
importable m = true

-- float(...), of which "0.660" and "0.66" are one value.
abbrev float_text : String → Option String
float_text t = if t == "0.660" then some "0.66" else if t == "0.66" then some "0.66" else none

abbrev coerce : String → String → String
coerce = coerce_value float_text

abbrev patch : String → String → String → Option String
patch source target value = some value

abbrev reloads : String → String → Bool
reloads m source = true

abbrev number : String → Option Fixed
number t = none

abbrev proposal : ChangeType → String → Proposal
proposal change value = record {
  proposal_id = "p";
  category = "threshold";
  file_path = "aggregator.py";
  module_name = "maestro.aggregator";
  target_name = "QUORUM_THRESHOLD";
  current_value = "0.66";
  proposed_value = value;
  change_type = change;
  status = validated;
}

abbrev injector : Injector
injector = record {
  world = record {
    attributes = ("maestro.aggregator", ("QUORUM_THRESHOLD", "0.66") ∷ []) ∷ [];
    files = ("aggregator.py", "QUORUM_THRESHOLD = 0.66") ∷ [];
    backups = [];
    settings = some (("QUORUM_THRESHOLD", "0.66") ∷ []);
  };
  log = [];
  guard = record {
    settings = record {
      auto_inject_enabled = true;
      max_injections_per_hour = 5;
      injectable_categories = "threshold" ∷ [];
      blocked_categories = "pipeline" ∷ [];
    };
    injection_timestamps = 100 ∷ 9000 ∷ [];
  };
}

is_fresh : get_entry "r1" injector.log ≡ none
unfolding get_entry
is_fresh = refl

has_source :
    get (resolve_file "aggregator.py" injector.world) injector.world.files
    ≡ some "QUORUM_THRESHOLD = 0.66"
unfolding resolve_file get
has_source = refl

rollback_restores_source_example :
    let t =
      rollback importable coerce patch reloads 10100 "r1"
        (inject importable coerce patch reloads source_patch "r1" "c" 10000
          (proposal code_patch "0.71")
          injector).0 in
    (t.1 ≡ true) × ((key : String) → get key t.0.world.files ≡ get key injector.world.files)
rollback_restores_source_example =
    rollback_restores_source importable coerce patch reloads "r1" "c" 10000 10100
      (proposal code_patch "0.71") injector "QUORUM_THRESHOLD = 0.66" "0.71" is_fresh has_source
      refl refl

has_attribute :
    get "QUORUM_THRESHOLD" (attributes_of "maestro.aggregator" injector.world) ≡ some "0.66"
unfolding attributes_of get
has_attribute = refl
