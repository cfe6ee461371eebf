-- ===== src/Plugins.antt =====
-- `ModManager` of maestro/plugins/manager.py: its state, the hooks, and what plugins do through their
-- `PluginContext` (maestro/plugins/base.py). The code of a plugin is a `Plugin`: the calls that each of its
-- methods makes on the context, and how the method ends. A callback is its identity.
use maestro_orchestrator.Prelude.{
  ℕ, String, Bool, true, false, not, Option, none, some, List, [], ◌∷◌, ◌++◌, map, ◌==◌, text_keys,
  if◌then◌else◌,
}
use maestro_orchestrator.Prelude.Lists.{keep}
use maestro_orchestrator.Prelude.Dict.{Dict, get, set, delete}
pub mod Lifecycle
pub mod Hooks
pub mod Enabling
pub mod Growth
pub mod Enabled
pub mod Acyclic
pub mod Validation
pub mod Snapshots
pub mod Valid
pub mod Restoring

pub data PluginState : Type 0 where
  discovered validated loaded enabled disabled error unloaded : PluginState

pub record PluginManifest : Type 0 where
  pub plugin_id : String
  pub name : String
  pub version : String
  pub category : String
  pub entry_point : String
  pub class_name : String
  pub dependencies : List String
  pub maestro_version_min : String
  pub maestro_version_max : Option String
  pub permissions : List String

-- What a plugin calls on its context.
pub data PluginCall : Type 0 where
  hook unhook subscribe agent : String → String → PluginCall
  drop_agent : String → PluginCall

-- A method of a plugin: its calls, and its answer, `none` where it raises.
pub record Script : Type 0 where
  pub calls : List PluginCall
  pub answer : Option Bool

abbrev pub Config : Type 0
Config = Dict String String

pub record Plugin : Type 0 where
  pub activate : Script
  pub deactivate : Script
  pub on_config_change : Config → Script

pub data PluginError : Type 0 where
  entry_missing class_missing load_failed refused raised : PluginError
  dependency_failed : String → PluginError

pub record PluginRecord : Type 0 where
  pub manifest : PluginManifest
  pub state : PluginState
  pub instance_ : Option Plugin
  pub error_ : Option PluginError

pub record Manager : Type 0 where
  pub plugins : Dict String PluginRecord
  pub hooks : Dict String (List String)
  pub hook_owners : Dict String (List (String × String))
  pub registered_agents : Dict String String
  pub event_subscribers : Dict String (List String)
  pub configs : Dict String Config

abbrev pub hook_points : List String
hook_points =
    "pre_orchestration" ∷ "post_agent_response" ∷ "pre_aggregation" ∷ "post_aggregation"
    ∷ "pre_r2_scoring" ∷ "post_r2_scoring" ∷ "pre_session_save" ∷ "post_session_save" ∷ []

-- A manager as `__init__` makes it, with the configurations that are on disk.
unfoldable pub new_manager : Dict String Config → Manager
new_manager configs = record {
  plugins = [];
  hooks = map (λ point. (point, [])) hook_points;
  hook_owners = map (λ point. (point, [])) hook_points;
  registered_agents = [];
  event_subscribers = [];
  configs = configs;
}

-- d.get(k, [])
abbrev pub items : {A : Type 0} → Option (List A) → List A
items none = []
items (some xs) = xs

unfoldable pub hooks_at : String → Manager → List String
hooks_at point m = items (get point m.hooks)

unfoldable pub owners_at : String → Manager → List (String × String)
owners_at point m = items (get point m.hook_owners)

-- `list.remove`: the first one, if it is there.
unfoldable pub remove_first : String → List String → List String
remove_first c [] = []
remove_first c (x ∷ xs) = if x == c then xs else x ∷ remove_first c xs

-- `register_hook`: an unknown point raises.
unfoldable pub register_hook : String → String → Manager → Option Manager
register_hook point c m = elim (get point m.hooks) [
  | none ↦ none
  | some cs ↦ some (record m { hooks = set point (cs ++ c ∷ []) m.hooks })
]

-- `_plugin_register_hook` of `enable`, which also books the owner.
unfoldable pub plugin_register_hook : String → String → String → Manager → Option Manager
unfolding register_hook owners_at
plugin_register_hook id point c m = elim (register_hook point c m) [
  | none ↦ none
  | some m' ↦
      some
        (record m' { hook_owners = set point (owners_at point m' ++ (id, c) ∷ []) m'.hook_owners })
]

unfoldable pub unregister_hook : String → String → Manager → Manager
unfolding remove_first
unregister_hook point c m = elim (get point m.hooks) [
  | none ↦ m
  | some cs ↦ record m { hooks = set point (remove_first c cs) m.hooks }
]

unfoldable pub subscribe_event : String → String → Manager → Manager
subscribe_event event c m = record m {
  event_subscribers =
      set event (items (get event m.event_subscribers) ++ c ∷ []) m.event_subscribers;
}

unfoldable pub register_agent : String → String → Manager → Manager
register_agent name object m = record m { registered_agents = set name object m.registered_agents }

unfoldable pub unregister_agent : String → Manager → Manager
unregister_agent name m = record m { registered_agents = delete name m.registered_agents }

-- One call of the plugin `id`; `none` where it raises.
unfoldable pub perform : String → PluginCall → Manager → Option Manager
unfolding plugin_register_hook unregister_hook subscribe_event register_agent unregister_agent
perform id (hook point c) m = plugin_register_hook id point c m
perform id (unhook point c) m = some (unregister_hook point c m)
perform id (subscribe event c) m = some (subscribe_event event c m)
perform id (agent name object) m = some (register_agent name object m)
perform id (drop_agent name) m = some (unregister_agent name m)

-- The calls of a method one after the other; the first that raises ends it.
unfoldable pub run_calls : String → List PluginCall → Option Bool → Manager → Manager × Option Bool
unfolding perform
run_calls id [] answer m = (m, answer)
run_calls id (c ∷ cs) answer m = elim (perform id c m) [
  | none ↦ (m, none)
  | some m' ↦ run_calls id cs answer m'
]

unfoldable pub run_script : String → Script → Manager → Manager × Option Bool
unfolding run_calls
run_script id s m = run_calls id s.calls s.answer m

-- The callbacks of one hook point with their owners, when a plugin's have been taken out.
unfoldable pub remove_all : List String → List String → List String
unfolding remove_first
remove_all [] xs = xs
remove_all (c ∷ cs) xs = remove_all cs (remove_first c xs)

unfoldable pub owned_by : String → List (String × String) → List String
owned_by id owners = map (λ o. o.1) (keep (λ o. o.0 == id) owners)

unfoldable pub not_owned_by : String → List (String × String) → List (String × String)
not_owned_by id owners = keep (λ o. not (o.0 == id)) owners

-- The body of the loop of `_remove_plugin_hooks`.
unfoldable pub remove_hooks_at : String → String → Manager → Manager
unfolding owners_at remove_all owned_by not_owned_by
remove_hooks_at id point m =
    let owners = owners_at point m in
    record m {
      hooks = elim (get point m.hooks) [
        | none ↦ m.hooks
        | some cs ↦ set point (remove_all (owned_by id owners) cs) m.hooks
      ];
      hook_owners = set point (not_owned_by id owners) m.hook_owners;
    }

unfoldable pub remove_hooks_in : String → List String → Manager → Manager
unfolding remove_hooks_at
remove_hooks_in id [] m = m
remove_hooks_in id (point ∷ points) m = remove_hooks_in id points (remove_hooks_at id point m)

unfoldable pub remove_plugin_hooks : String → Manager → Manager
unfolding remove_hooks_in
remove_plugin_hooks id m = remove_hooks_in id hook_points m

-- `run_hooks`: `call` is a callback on a context, which raises, returns nothing, or returns a context.
pub data Returned {ℓ} (A : Type ℓ) : Type ℓ where
  raises nothing : Returned A
  value : A → Returned A

unfoldable pub run_each {ℓ} : {A : Type ℓ} → (String → A → Returned A) → List String → A → A
run_each call [] context = context
run_each call (c ∷ cs) context = elim (call c context) [
  | raises ↦ run_each call cs context
  | nothing ↦ run_each call cs context
  | value context' ↦ run_each call cs context'
]

unfoldable pub run_hooks {ℓ} : {A : Type ℓ} → (String → A → Returned A) → String → A → Manager → A
unfolding run_each hooks_at
run_hooks call point context m = run_each call (hooks_at point m) context
