-- ===== src/Plugins/Valid.antt =====
-- Which manifests `validate` of maestro/plugins/manager.py accepts.
use maestro_orchestrator.Prelude.{ℕ, String, ◌≡◌, Bool, false, Option, List, text_keys}
use maestro_orchestrator.Prelude.Lists.{nonempty}
use maestro_orchestrator.Plugins.Validation.{ValidationError, tuple_lt, version_tuple}

abbrev Errors : Type 0
Errors = List ValidationError

abbrev IsClean : Errors → Type 0
IsClean es = nonempty es ≡ false

module _ (integers : String → Option (List ℕ)) (dir_exists : String → Bool)
    (entry_exists : String → String → Bool) where
  abbrev older : String → String → Bool
  older v w =
      tuple_lt (version_tuple integers dir_exists entry_exists v)
        (version_tuple integers dir_exists entry_exists w)
