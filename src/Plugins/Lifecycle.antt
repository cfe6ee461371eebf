-- ===== src/Plugins/Lifecycle.antt =====
-- The life cycle of a plugin in maestro/plugins/manager.py. Parameters stand for the file system and the
-- import system: `entry_exists` is whether a plugin has its entry point, and `import_class` runs the module
-- and makes an instance: `none` where that raises, `some none` where the class is missing. `enable` calls
-- itself for dependencies and so takes fuel; `none` means that the fuel ran out.
use maestro_orchestrator.Prelude.{
  ℕ, zero, suc, String, Bool, true, false, not, Option, none, some, List, [], ◌∷◌, text_keys,
  if◌then◌else◌,
}
use maestro_orchestrator.Prelude.Dict.{get, set}
use maestro_orchestrator.Plugins.{
  PluginState, discovered, validated, loaded, enabled, disabled, error, unloaded, PluginManifest,
  Plugin, PluginError, entry_missing, class_missing, load_failed, refused, raised,
  dependency_failed, PluginRecord, Manager, run_script, remove_plugin_hooks,
}

unfoldable pub is_enabled : PluginState → Bool
is_enabled enabled = true
is_enabled discovered = false
is_enabled validated = false
is_enabled loaded = false
is_enabled disabled = false
is_enabled error = false
is_enabled unloaded = false

-- record.state in (LOADED, DISABLED)
unfoldable pub is_ready : PluginState → Bool
is_ready loaded = true
is_ready disabled = true
is_ready enabled = false
is_ready discovered = false
is_ready validated = false
is_ready error = false
is_ready unloaded = false

-- A plugin's record with another state and error.
unfoldable pub mark : String → PluginState → Option PluginError → Manager → Manager
mark id state e m = elim (get id m.plugins) [
  | none ↦ m
  | some r ↦ record m { plugins = set id (record r { state = state; error_ = e }) m.plugins }
]

unfoldable pub put_state : String → PluginState → Manager → Manager
put_state id state m = elim (get id m.plugins) [
  | none ↦ m
  | some r ↦ record m { plugins = set id (record r { state = state }) m.plugins }
]

-- A plugin's record with another instance and state.
unfoldable pub put_instance : String → Option Plugin → PluginState → Manager → Manager
put_instance id p state m = elim (get id m.plugins) [
  | none ↦ m
  | some r ↦ record m { plugins = set id (record r { state = state; instance_ = p }) m.plugins }
]

-- `discover`, over the manifests that are on disk, `none` for one that cannot be read.
unfoldable pub discover : List (Option PluginManifest) → Manager → Manager × List PluginManifest
discover [] m = (m, [])
discover (none ∷ found) m = discover found m
discover (some manifest ∷ found) m =
    let fresh : PluginRecord = record {
      manifest = manifest;
      state = discovered;
      instance_ = none;
      error_ = none;
    } in
    let m' : Manager = elim (get manifest.plugin_id m.plugins) [
      | none ↦ record m { plugins = set manifest.plugin_id fresh m.plugins }
      | some _ ↦ m
    ] in
    let (last, manifests) = discover found m' in (last, manifest ∷ manifests)

-- The loop over the dependencies: the first that fails, if one does.
unfoldable pub enable_dependencies :
    (String → Manager → Option (Manager × Bool))
    → List String
    → Manager
    → Option (Manager × Option String)
unfolding is_enabled
enable_dependencies enable_one [] m = some (m, none)
enable_dependencies enable_one (id ∷ ids) m = elim (get id m.plugins) [
  | none ↦ enable_dependencies enable_one ids m
  | some r ↦ elim (is_enabled r.state) [
    | true ↦ enable_dependencies enable_one ids m
    | false ↦ elim (enable_one id m) [
      | none ↦ none
      | some (m', true) ↦ enable_dependencies enable_one ids m'
      | some (m', false) ↦ some (m', some id)
    ]
  ]
]

-- The end of `activate`, by its answer.
unfoldable pub activated : String → Manager × Option Bool → Manager × Bool
unfolding mark
activated id (m, some true) = (mark id enabled none m, true)
activated id (m, some false) = (mark id error (some refused) m, false)
activated id (m, none) = (mark id error (some raised) m, false)

-- A record with no instance raises as well.
unfoldable pub activate_plugin : String → Option Plugin → Manager → Manager × Bool
unfolding activated run_script
activate_plugin id none m = activated id (m, none)
activate_plugin id (some p) m = activated id (run_script id p.activate m)

unfoldable pub instance_of : String → Manager → Option Plugin
instance_of id m = elim (get id m.plugins) [ none ↦ none | some r ↦ r.instance_ ]

-- `_plugins`'s part of `enable` after `load`: the dependencies, then the plugin itself.
unfoldable pub enable_loaded :
    (String → Manager → Option (Manager × Bool))
    → String
    → List String
    → Manager
    → Option (Manager × Bool)
unfolding enable_dependencies activate_plugin instance_of mark
enable_loaded enable_one id dependencies m = elim (enable_dependencies enable_one dependencies m) [
  | none ↦ none
  | some (m', some d) ↦ some (mark id error (some (dependency_failed d)) m', false)
  | some (m', none) ↦ some (activate_plugin id (instance_of id m') m')
]

-- What follows `load`, which may have failed.
unfoldable pub enable_ready :
    (String → Manager → Option (Manager × Bool))
    → String
    → List String
    → Manager × Bool
    → Option (Manager × Bool)
unfolding enable_loaded
enable_ready enable_one id dependencies (m, false) = some (m, false)
enable_ready enable_one id dependencies (m, true) = enable_loaded enable_one id dependencies m

-- What `deactivate` leaves behind; an exception in it is caught.
unfoldable pub deactivated : String → Option Plugin → Manager → Manager
unfolding run_script
deactivated id none m = m
deactivated id (some p) m = (run_script id p.deactivate m).0

unfoldable pub disable : String → Manager → Manager × Bool
unfolding is_enabled deactivated remove_plugin_hooks put_state
disable id m = elim (get id m.plugins) [
  | none ↦ (m, false)
  | some r ↦
      if not (is_enabled r.state)
      then (m, true)
      else (put_state id disabled (remove_plugin_hooks id (deactivated id r.instance_ m)), true)
]

-- The state and the instance are put back; an enabled plugin is disabled first.
unfoldable pub unload : String → Manager → Manager × Bool
unfolding is_enabled disable put_instance
unload id m = elim (get id m.plugins) [
  | none ↦ (m, false)
  | some r ↦
      let m' = (if is_enabled r.state then (disable id m).0 else m) in
      (put_instance id none unloaded m', true)
]

-- Whether a plugin is there and enabled.
unfoldable pub was_enabled : String → Manager → Bool
unfolding is_enabled
was_enabled id m = elim (get id m.plugins) [ none ↦ false | some r ↦ is_enabled r.state ]

module _ (entry_exists : String → String → Bool)
    (import_class : PluginManifest → Option (Option Plugin)) where
  -- What an import leaves in the record.
  unfoldable pub imported : String → Option (Option Plugin) → Manager → Manager × Bool
  unfolding mark put_instance
  imported id none m = (mark id error (some load_failed) m, false)
  imported id (some none) m = (mark id error (some class_missing) m, false)
  imported id (some (some p)) m = (mark id loaded none (put_instance id (some p) loaded m), true)

  unfoldable pub load_plugin : String → Manager → Manager × Bool
  unfolding is_enabled mark imported
  load_plugin id m = elim (get id m.plugins) [
    | none ↦ (m, false)
    | some r ↦
        if is_enabled r.state
        then (m, true)
        else if not (entry_exists id r.manifest.entry_point)
        then (mark id error (some entry_missing) m, false)
        else imported id (import_class r.manifest) m
  ]

  -- `load` unless the plugin is ready.
  unfoldable pub make_ready : String → PluginState → Manager → Manager × Bool
  unfolding is_ready load_plugin
  make_ready id state m = if is_ready state then (m, true) else load_plugin id m

  unfoldable pub enable_step :
      (String → Manager → Option (Manager × Bool)) → String → Manager → Option (Manager × Bool)
  unfolding is_enabled make_ready enable_ready
  enable_step enable_one id m = elim (get id m.plugins) [
    | none ↦ some (m, false)
    | some r ↦ elim (is_enabled r.state) [
      | true ↦ some (m, true)
      | false ↦ enable_ready enable_one id r.manifest.dependencies (make_ready id r.state m)
    ]
  ]

  unfoldable pub enable : ℕ → String → Manager → Option (Manager × Bool)
  unfolding enable_step
  enable zero id m = none
  enable (suc fuel) id m = enable_step (enable fuel) id m

  unfoldable pub reload :
      ℕ → List (Option PluginManifest) → String → Manager → Option (Manager × Bool)
  unfolding was_enabled unload discover load_plugin enable
  reload fuel installed id m =
      let (m', ok) = load_plugin id (discover installed (unload id m).0).0 in
      elim ok [
        | false ↦ some (m', false)
        | true ↦ if was_enabled id m then enable fuel id m' else some (m', true)
      ]
