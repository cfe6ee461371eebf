-- ===== src/Plugins/Enabled.antt =====
-- `enable` of maestro/plugins/manager.py and the dependencies of a plugin: what it has enabled when it
-- succeeds, from `load` to the end.
use maestro_orchestrator.Prelude.{
  ℕ, zero, suc, String, ◌≡◌, refl, subst, Bool, true, false, Option, none, some, some-inj, List,
  text_keys, inl, inr, Bool-cases, Option-cases,
}
use maestro_orchestrator.Prelude.Lists.{All}
use maestro_orchestrator.Prelude.Dict.{get}
use maestro_orchestrator.Plugins.{
  error, loaded, load_failed, class_missing, entry_missing, PluginManifest, Plugin, PluginRecord,
  Manager,
}
use maestro_orchestrator.Plugins.Lifecycle.{
  is_enabled, is_ready, put_instance, enable_dependencies, enable_ready, imported, load_plugin,
  make_ready, enable_step, enable,
}
use maestro_orchestrator.Plugins.Enabling.{Enabler, IsSound, IsGood, Ends, ended}
use maestro_orchestrator.Plugins.Growth.{
  Table, Grows-refl, Keeps, mark-Keeps, put_instance-Keeps, IsOn, IsSettled, Keeps-IsOn,
}

module _ (entry_exists : String → String → Bool)
    (import_class : PluginManifest → Option (Option Plugin)) (id : String) (r : PluginRecord)
    (m : Manager) (found : get id m.plugins ≡ some r) (off : is_enabled r.state ≡ false) where
  start : Keeps m.plugins m.plugins
  start = λ q. Grows-refl (get q m.plugins)

  imported_Keeps :
      (o : Option (Option Plugin))
      → Keeps m.plugins (imported entry_exists import_class id o m).0.plugins
  unfolding imported
  imported_Keeps none = mark-Keeps id error (some load_failed) m.plugins r m start found off
  imported_Keeps (some none) =
      mark-Keeps id error (some class_missing) m.plugins r m start found off
  imported_Keeps (some (some p)) =
      mark-Keeps id loaded none m.plugins r (put_instance id (some p) loaded m)
        (put_instance-Keeps id (some p) loaded m.plugins r m start found off) found off

  pub make_ready_Keeps :
      Keeps m.plugins (make_ready entry_exists import_class id r.state m).0.plugins
  unfolding make_ready load_plugin
  make_ready_Keeps = elim (Bool-cases (is_ready r.state)) [
    | inl e ↦ rw (e, make_ready) start
    | inr e ↦
        rw (e, make_ready)
          (elim (Bool-cases (entry_exists id r.manifest.entry_point)) [
            | inl there ↦
                rw (found, off, there, load_plugin) (imported_Keeps (import_class r.manifest))
            | inr missing ↦
                rw (found, off, missing, load_plugin)
                  (mark-Keeps id error (some entry_missing) m.plugins r m start found off)
          ])
  ]

module _ (entry_exists : String → String → Bool)
    (import_class : PluginManifest → Option (Option Plugin)) where
  abbrev pub enabler : ℕ → Enabler
  enabler = enable entry_exists import_class

  unchanged :
      (id : String) (m m' : Manager) (b ok : Bool)
      → ◌≡◌ {A = Manager × Bool} (m, b) (m', ok)
      → (b ≡ true → IsOn id m)
      → IsGood m.plugins id (m', ok)
  unchanged id m m' b ok e on =
      subst (IsGood m.plugins id) e (λ q. Grows-refl (get q m.plugins), on)

  -- Through `load` and the dependencies, for a plugin that was there and off.
  ready_Ends :
      (enable_one : Enabler) (sound : IsSound enable_one) (id : String) (d : Table)
      (r : PluginRecord) (ids : List String) (p q : Manager × Bool)
      → get id d ≡ some r
      → is_enabled r.state ≡ false
      → Keeps d p.0.plugins
      → enable_ready enable_one id ids p ≡ some q
      → Ends d id ids q
  unfolding enable_ready
  ready_Ends enable_one sound id d r ids (n, true) q found off keeps h =
      ended id d r found off enable_one sound ids n q (enable_dependencies enable_one ids n) keeps
        refl h
  ready_Ends enable_one sound id d r ids (n, false) q found off keeps h =
      subst (Ends d id ids) (some-inj h) ((keeps, λ z. absurd (cc)), λ z. absurd (cc))

  -- One call of `enable` on a plugin that is there and off.
  step_Ends :
      (enable_one : Enabler) (sound : IsSound enable_one) (id : String) (m : Manager)
      (r : PluginRecord) (q : Manager × Bool)
      → get id m.plugins ≡ some r
      → is_enabled r.state ≡ false
      → enable_step entry_exists import_class enable_one id m ≡ some q
      → Ends m.plugins id r.manifest.dependencies q
  unfolding enable_step
  step_Ends enable_one sound id m r q found off h =
      ready_Ends enable_one sound id m.plugins r r.manifest.dependencies
        (make_ready entry_exists import_class id r.state m) q found off
        (make_ready_Keeps entry_exists import_class id r m found off)
        (rw (found, off, enable_step) at h)

  step_IsSound :
      (enable_one : Enabler)
      → IsSound enable_one
      → IsSound (enable_step entry_exists import_class enable_one)
  unfolding enable_step
  step_IsSound enable_one sound id m m' ok h = elim (Option-cases (get id m.plugins)) [
    | inl e ↦ unchanged id m m' false ok (some-inj (rw (e, enable_step) at h)) (λ z. absurd (cc))
    | inr (r, e) ↦ elim (Bool-cases (is_enabled r.state)) [
      | inl on ↦
          unchanged id m m' true ok (some-inj (rw (e, on, enable_step) at h)) (λ z. (r, e, on))
      | inr off ↦ (step_Ends enable_one sound id m r (m', ok) e off h).0
    ]
  ]

  pub enable_IsSound : (fuel : ℕ) → IsSound (enabler fuel)
  unfolding enable
  enable_IsSound zero id m m' ok h = absurd (cc)
  enable_IsSound (suc fuel) id m m' ok h =
      step_IsSound (enabler fuel) (enable_IsSound fuel) id m m' ok h

  -- If enable succeeds on a plugin that was there and not enabled, then it is enabled, each of its
  -- dependencies is enabled or not installed, and every plugin that was enabled still is.
  pub enable_settles :
      (fuel : ℕ) (id : String) (r : PluginRecord) (m m' : Manager)
      → get id m.plugins ≡ some r
      → is_enabled r.state ≡ false
      → enabler fuel id m ≡ some (m', true)
      → IsOn id m'
        × All (λ q. IsSettled q m') r.manifest.dependencies
        × ((q : String) → IsOn q m → IsOn q m')
  unfolding enable
  enable_settles zero id r m m' found off h = absurd (cc)
  enable_settles (suc fuel) id r m m' found off h =
      let (good, all) =
        step_Ends (enabler fuel) (enable_IsSound fuel) id m r (m', true) found off h in
      (good.1 refl, all refl, λ q. Keeps-IsOn q m m' good.0)
