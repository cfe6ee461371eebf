-- ===== src/Injection/Limits.antt =====
-- What `apply` of maestro/applicator.py lets through.
use maestro_orchestrator.Prelude.{ℕ, String, ◌≡◌, Bool, true, Option, none, List, text_keys}
use maestro_orchestrator.Prelude.Dict.{Dict}
use maestro_orchestrator.Prelude.Float.{Float}
use maestro_orchestrator.Injection.{
  Proposal, Bounds, is_injectable, check_rate_limit, record_injection,
}
use maestro_orchestrator.Injection.Injector.{Injector}

module _ {F : Type 0} ⦃f : Float F⦄ (number : String → Option F)
    (thresholds : Dict String (List (Bounds F))) (temperatures : List (Bounds F)) where
  module _ (importable : String → Bool) (coerce : String → String → String)
      (patch : String → String → String → Option String) (reloads : String → String → Bool) where
    abbrev Applied : String → String → ℕ → Proposal → Injector → Injector → Type 0
    Applied id cycle now p i i' =
        (is_injectable number thresholds temperatures i.guard p ≡ none)
        × ((check_rate_limit now i.guard).1 ≡ true)
        × (i'.guard ≡ record_injection now (check_rate_limit now i.guard).0)
