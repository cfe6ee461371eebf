-- ===== src/Plugins/Snapshots.antt =====
-- The snapshots of maestro/plugins/manager.py. A snapshot file is its id with what can be read of it; `now`
-- and the new id are arguments.
use maestro_orchestrator.Prelude.{
  ℕ, String, Bool, true, false, not, Option, none, some, List, [], ◌∷◌, text_keys, if◌then◌else◌,
}
use maestro_orchestrator.Prelude.Lists.{contains, keep, nonempty}
use maestro_orchestrator.Prelude.Dict.{Dict, get, set, delete, keys}
use maestro_orchestrator.Plugins.{
  PluginState, PluginManifest, Plugin, Config, PluginRecord, Manager, run_script,
}
use maestro_orchestrator.Plugins.Lifecycle.{
  is_enabled, is_ready, was_enabled, disable, discover, load_plugin, enable,
}

pub record Snapshot : Type 0 where
  pub snapshot_id : String
  pub name : String
  pub created_at : String
  pub description : String
  pub enabled_plugins : List String
  pub disabled_plugins : List String
  pub plugin_configs : Dict String Config
  pub active_agents : List String
  pub runtime_config : Config

unfoldable pub get_plugin_config : String → Manager → Config
get_plugin_config id m = elim (get id m.configs) [ none ↦ [] | some c ↦ c ]

-- dict.update
unfoldable pub merge : Config → Config → Config
merge [] old = old
merge ((k, v) ∷ updates) old = merge updates (set k v old)

unfoldable pub notify_config : String → Config → Option Plugin → Manager → Manager
unfolding run_script
notify_config id config none m = m
notify_config id config (some p) m = (run_script id (p.on_config_change config) m).0

-- The configuration is written, and an enabled plugin is told.
unfoldable pub update_plugin_config : String → Config → Manager → Manager
unfolding get_plugin_config merge notify_config is_enabled
update_plugin_config id updates m =
    let config = merge updates (get_plugin_config id m) in
    let m' : Manager = record m { configs = set id config m.configs } in
    elim (get id m.plugins) [
      | none ↦ m'
      | some r ↦ if is_enabled r.state then notify_config id config r.instance_ m' else m'
    ]

-- The plugins whose state passes a test.
unfoldable pub with_state : (PluginState → Bool) → Dict String PluginRecord → List String
with_state test plugins = keys (keep (λ e. test e.1.state) plugins)

unfoldable pub configs_of : List String → Manager → Dict String Config
unfolding get_plugin_config
configs_of [] m = []
configs_of (id ∷ ids) m = (id, get_plugin_config id m) ∷ configs_of ids m

unfoldable pub save_snapshot : String → String → String → String → Config → Manager → Snapshot
unfolding with_state configs_of is_enabled is_ready
save_snapshot id name now description runtime m = record {
  snapshot_id = id;
  name = name;
  created_at = now;
  description = description;
  enabled_plugins = with_state is_enabled m.plugins;
  disabled_plugins = with_state is_ready m.plugins;
  plugin_configs = configs_of (keys m.plugins) m;
  active_agents = keys m.registered_agents;
  runtime_config = runtime;
}

unfoldable pub disable_each : List String → Manager → Manager
unfolding was_enabled disable
disable_each [] m = m
disable_each (id ∷ ids) m = disable_each ids (if was_enabled id m then (disable id m).0 else m)

unfoldable pub restore_configs : Dict String Config → Manager → Manager
unfolding update_plugin_config
restore_configs [] m = m
restore_configs ((id, config) ∷ configs) m =
    restore_configs configs (if nonempty config then update_plugin_config id config m else m)

module _ (entry_exists : String → String → Bool)
    (import_class : PluginManifest → Option (Option Plugin)) where
  unfoldable pub enable_each : ℕ → List String → Manager → Option Manager
  unfolding load_plugin enable
  enable_each fuel [] m = some m
  enable_each fuel (id ∷ ids) m = elim (get id m.plugins) [
    | none ↦ enable_each fuel ids m
    | some r ↦
        elim (enable entry_exists import_class fuel id
          (load_plugin entry_exists import_class id m).0) [
            | none ↦ none
            | some (m', ok) ↦ enable_each fuel ids m'
          ]
  ]

  -- The manager and the runtime configuration; `none` where `enable` has run out of fuel.
  unfoldable pub restore_snapshot :
      ℕ → List (Option PluginManifest) → Snapshot → Manager → Config → Option (Manager × Config)
  unfolding disable_each discover restore_configs enable_each
  restore_snapshot fuel installed s m runtime =
      let off = disable_each (keys m.plugins) m in
      let configured = restore_configs s.plugin_configs (discover installed off).0 in
      elim (enable_each fuel s.enabled_plugins configured) [
        | none ↦ none
        | some m' ↦ some (m', if nonempty s.runtime_config then s.runtime_config else runtime)
      ]

-- The snapshot files, in a dict; `none` stands for one that cannot be read.
abbrev pub SnapshotFiles : Type 0
SnapshotFiles = Dict String (Option Snapshot)

unfoldable pub load_snapshot : String → SnapshotFiles → Option Snapshot
load_snapshot id files = elim (get id files) [ none ↦ none | some s ↦ s ]

unfoldable pub delete_snapshot : String → SnapshotFiles → SnapshotFiles × Bool
delete_snapshot id files = elim (get id files) [
  | none ↦ (files, false)
  | some _ ↦ (delete id files, true)
]

-- xs - ys, of sets
unfoldable pub minus : List String → List String → List String
minus xs ys = keep (λ x. not (contains ys x)) xs

pub record Difference : Type 0 where
  pub plugins_added : List String
  pub plugins_removed : List String
  pub plugins_enabled : List String
  pub plugins_disabled : List String
  pub agents_from : List String
  pub agents_to : List String

-- Sets of plugins in the order of the snapshots, where the code sorts them; `none` is its error. The
-- changes of the configurations are left out.
unfoldable pub diff_snapshots : String → String → SnapshotFiles → Option Difference
unfolding load_snapshot minus
diff_snapshots i j files = elim (load_snapshot i files) [
  | none ↦ none
  | some a ↦ elim (load_snapshot j files) [
    | none ↦ none
    | some b ↦ some (record {
      plugins_added = minus b.enabled_plugins a.enabled_plugins;
      plugins_removed = minus a.enabled_plugins b.enabled_plugins;
      plugins_enabled = minus (minus b.enabled_plugins a.enabled_plugins) a.disabled_plugins;
      plugins_disabled = minus (minus b.disabled_plugins a.disabled_plugins) a.enabled_plugins;
      agents_from = a.active_agents;
      agents_to = b.active_agents;
    })
  ]
]
