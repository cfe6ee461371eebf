-- ===== src/Examples/Mods.antt =====
-- Two plugins, the second of which depends on the first.
use maestro_orchestrator.Prelude.{
  ℕ, ◌<◌, ◌-◌, String, ◌≡◌, refl, Bool, true, false, Option, none, some, List, [], ◌∷◌, ◌==◌,
  text_keys, if◌then◌else◌, inl, inr, arith, ◌||◌, Bool-cases, eq_iff,
}
use maestro_orchestrator.Prelude.Lists.{All, contains}
use maestro_orchestrator.Prelude.Dict.{get, set, All-get_entry}
use maestro_orchestrator.Plugins.{
  PluginState, loaded, enabled, PluginManifest, Plugin, hook, PluginRecord, Manager, hook_points,
  hooks_at, owners_at, owned_by, not_owned_by,
}
use maestro_orchestrator.Plugins.Lifecycle.{
  is_enabled, is_ready, deactivated, disable, was_enabled, enable,
}
use maestro_orchestrator.Plugins.Hooks.{occurrences, disable_removes_hooks}
use maestro_orchestrator.Plugins.Growth.{IsOn, IsSettled}
use maestro_orchestrator.Plugins.Enabled.{enable_settles}
use maestro_orchestrator.Plugins.Acyclic.{IsAcyclic, OnCycle, enable_returns, enable_cycle_loops}

abbrev manifest : String → List String → PluginManifest
manifest id dependencies = record {
  plugin_id = id;
  name = id;
  version = "1.0.0";
  category = "agent";
  entry_point = "plugin";
  class_name = "Main";
  dependencies = dependencies;
  maestro_version_min = "0.5.0";
  maestro_version_max = none;
  permissions = "network" ∷ [];
}

abbrev hooking : String → Plugin
hooking id = record {
  activate = record { calls = hook "pre_aggregation" id ∷ []; answer = some true };
  deactivate = record { calls = []; answer = some true };
  on_config_change = λ c. record { calls = []; answer = some true };
}

abbrev entry : PluginState → String → List String → PluginRecord
entry state id dependencies = record {
  manifest = manifest id dependencies;
  state = state;
  instance_ = some (hooking id);
  error_ = none;
}

abbrev manager : PluginState → List String → Manager
manager state back = record {
  plugins = ("a", entry state "a" ("b" ∷ [])) ∷ ("b", entry loaded "b" back) ∷ [];
  hooks = ("pre_aggregation", "a" ∷ "core" ∷ []) ∷ [];
  hook_owners = ("pre_aggregation", ("a", "a") ∷ []) ∷ [];
  registered_agents = [];
  event_subscribers = [];
  configs = ("a", ("rate", "2") ∷ []) ∷ [];
}

abbrev there : String → String → Bool
there id entry = true

abbrev imports : PluginManifest → Option (Option Plugin)
imports m = some (some (hooking m.plugin_id))

disable_removes_hooks_example :
    (was_enabled "a" (disable "a" (manager enabled [])).0 ≡ false)
    × ((point : String)
        → contains hook_points point ≡ true
        → ((c : String)
            → occurrences c (hooks_at point (disable "a" (manager enabled [])).0)
              ≡ occurrences c (hooks_at point (manager enabled []))
                - occurrences c (owned_by "a" (owners_at point (manager enabled []))))
          × (owned_by "a" (owners_at point (disable "a" (manager enabled [])).0) ≡ [])
          × (not_owned_by "a" (owners_at point (disable "a" (manager enabled [])).0)
              ≡ not_owned_by "a" (owners_at point (manager enabled []))))
unfolding get is_enabled deactivated
disable_removes_hooks_example =
    disable_removes_hooks "a" (entry enabled "a" ("b" ∷ [])) (manager enabled []) refl refl

abbrev hooked : Manager
hooked = record {
  plugins = ("a", entry enabled "a" ("b" ∷ [])) ∷ ("b", entry enabled "b" []) ∷ [];
  hooks = ("pre_aggregation", "a" ∷ "core" ∷ "b" ∷ "a" ∷ []) ∷ [];
  hook_owners = ("pre_aggregation", ("a", "a") ∷ ("b", "b") ∷ ("a", "a") ∷ []) ∷ [];
  registered_agents = [];
  event_subscribers = [];
  configs = ("a", ("rate", "2") ∷ []) ∷ [];
}

enable_settles_example :
    IsOn "a" hooked
    × All (λ q. IsSettled q hooked) ("b" ∷ [])
    × ((q : String) → IsOn q (manager loaded []) → IsOn q hooked)
unfolding get set is_enabled enable
enable_settles_example =
    enable_settles there imports 2 "a" (entry loaded "a" ("b" ∷ [])) (manager loaded []) hooked refl
      refl refl

abbrev rank : String → ℕ
rank id = if id == "a" then 1 else 0

below_rank : IsAcyclic rank (manager loaded []).plugins
below_rank q r found =
    All-get_entry (λ e. All (λ i. rank i < rank e.0) e.1.manifest.dependencies) q
      (manager loaded []).plugins ((omega arith, tt), (tt, tt)) found

enable_returns_example :
    (p : Manager × Bool) × (enable there imports 2 "a" (manager loaded []) ≡ some p)
enable_returns_example =
    enable_returns there imports rank 2 "a" (manager loaded []) (omega arith) below_rank

abbrev in_cycle : String → Bool
in_cycle q = (q == "a") || (q == "b")

abbrev looped : Manager
looped = manager loaded ("a" ∷ [])

looped-OnCycle : OnCycle in_cycle looped.plugins
unfolding get is_ready is_enabled
looped-OnCycle q on = elim (Bool-cases (q == "a")) [
  | inl e ↦
      rw ((eq_iff q "a").0 e) (entry loaded "a" ("b" ∷ []), "b", [], refl, refl, refl, refl, refl)
  | inr e ↦
      let other : (q == "b") ≡ true = rw e at on in
      rw ((eq_iff q "b").0 other)
        (entry loaded "b" ("a" ∷ []), "a", [], refl, refl, refl, refl, refl)
]

enable_cycle_loops_example : enable there imports 1000 "a" looped ≡ none
enable_cycle_loops_example =
    enable_cycle_loops there imports in_cycle 1000 "a" looped looped-OnCycle refl

abbrev split : String → Option (List ℕ)
split text =
    if text == "7.4.0"
    then some (7 ∷ 4 ∷ 0 ∷ [])
    else if text == "0.5.0"
    then some (0 ∷ 5 ∷ 0 ∷ [])
    else none

abbrev changed : Manager
changed = record (manager enabled []) { configs = ("a", ("rate", "3") ∷ ("added", "1") ∷ []) ∷ [] }
