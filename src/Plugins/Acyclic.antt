-- ===== src/Plugins/Acyclic.antt =====
-- Whether the recursion of `enable` in maestro/plugins/manager.py over dependencies ends.
use maestro_orchestrator.Prelude.{
  ℕ, zero, suc, ◌<◌, String, ◌≡◌, refl, ap, sym, subst, ◌∙◌, Bool, true, false, Option, none, some,
  some-inj, List, [], ◌∷◌, arith, inl, inr, Bool-cases, Option-cases, text_keys,
}
use maestro_orchestrator.Prelude.Lists.{All, All-map}
use maestro_orchestrator.Prelude.Dict.{get}
use maestro_orchestrator.Plugins.{PluginManifest, Plugin, PluginRecord, Manager}
use maestro_orchestrator.Plugins.Lifecycle.{
  is_enabled, is_ready, enable_dependencies, activate_plugin, instance_of, enable_loaded,
  enable_ready, make_ready, enable_step, enable,
}
use maestro_orchestrator.Plugins.Growth.{Table, Grows, Grows-at, Keeps}
use maestro_orchestrator.Plugins.Enabling.{Enabler, IsSound}
use maestro_orchestrator.Plugins.Enabled.{enable_IsSound, make_ready_Keeps}

-- The rank goes down from each plugin to its dependencies.
abbrev pub IsAcyclic : (String → ℕ) → Table → Type 0
IsAcyclic rank d =
    (q : String) (r : PluginRecord)
    → get q d ≡ some r
    → All (λ i. rank i < rank q) r.manifest.dependencies

Keeps-IsAcyclic :
    (rank : String → ℕ) (d d' : Table) → Keeps d d' → IsAcyclic rank d → IsAcyclic rank d'
Keeps-IsAcyclic rank d d' keeps acyclic q s found = elim (Option-cases (get q d)) [
  | inl e ↦ let missing : get q d' ≡ none = Grows-at e refl (keeps q) in absurd (cc)
  | inr (r, e) ↦
      let new : Grows (some r) (some s) = Grows-at e found (keeps q) in
      let same : s.manifest ≡ r.manifest =
        ap (λ (x : PluginRecord). x.manifest) (some-inj new.1) ∙ new.2 in
      subst (λ (x : PluginManifest). All (λ i. rank i < rank q) x.dependencies) (sym same)
        (acyclic q r e)
]

abbrev Returns : {A : Type 0} → Option A → Type 0
Returns {A} o = (a : A) × (o ≡ some a)

module _ (rank : String → ℕ) (enable_one : Enabler) (sound : IsSound enable_one) (n : ℕ)
    (returns : (q : String) (m : Manager)
      → rank q < n
      → IsAcyclic rank m.plugins
      → Returns (enable_one q m)) where
  next_dependency :
      (id : String) (ids : List String) (m : Manager) (r : PluginRecord) (m' : Manager) (ok : Bool)
      → get id m.plugins ≡ some r
      → is_enabled r.state ≡ false
      → enable_one id m ≡ some (m', ok)
      → Returns (enable_dependencies enable_one ids m')
      → Returns (enable_dependencies enable_one (id ∷ ids) m)
  unfolding enable_dependencies
  next_dependency id ids m r m' true found off e later =
      rw (found, off, e, enable_dependencies) later
  next_dependency id ids m r m' false found off e later =
      ((m', some id), rw (found, off, e, enable_dependencies) refl)

  dependencies_return :
      (ids : List String) (m : Manager)
      → All (λ q. rank q < n) ids
      → IsAcyclic rank m.plugins
      → Returns (enable_dependencies enable_one ids m)
  unfolding enable_dependencies
  dependencies_return [] m below acyclic = ((m, none), refl)
  dependencies_return (id ∷ ids) m below acyclic = elim (Option-cases (get id m.plugins)) [
    | inl e ↦ rw (e, enable_dependencies) (dependencies_return ids m below.1 acyclic)
    | inr (r, e) ↦ elim (Bool-cases (is_enabled r.state)) [
      | inl on ↦ rw (e, on, enable_dependencies) (dependencies_return ids m below.1 acyclic)
      | inr off ↦
          let ((m', ok), done) = returns id m below.0 acyclic in
          let (keeps, _) = sound id m m' ok done in
          next_dependency id ids m r m' ok e off done (
            dependencies_return ids m' below.1
              (Keeps-IsAcyclic rank m.plugins m'.plugins keeps acyclic))
    ]
  ]

  loaded-Returns :
      (id : String) (ids : List String) (m : Manager)
      → Returns (enable_dependencies enable_one ids m)
      → Returns (enable_loaded enable_one id ids m)
  unfolding enable_loaded
  loaded-Returns id ids m ((m', none), e) =
      (activate_plugin id (instance_of id m') m', rw (e, enable_loaded) refl)
  loaded-Returns id ids m ((m', some q), e) = rw (e, enable_loaded) (_, refl)

  ready-Returns :
      (id : String) (ids : List String) (p : Manager × Bool)
      → All (λ q. rank q < n) ids
      → IsAcyclic rank p.0.plugins
      → Returns (enable_ready enable_one id ids p)
  unfolding enable_ready
  ready-Returns id ids (m, true) below acyclic =
      loaded-Returns id ids m (dependencies_return ids m below acyclic)
  ready-Returns id ids (m, false) below acyclic = ((m, false), refl)

-- What a plugin on a cycle of first dependencies looks like: loaded, not enabled, and the first
-- dependency is on the cycle too.
abbrev pub OnCycle : (String → Bool) → Table → Type 0
OnCycle cycle d =
    (q : String)
    → cycle q ≡ true
    → (r : PluginRecord) × (next : String) × (later : List String) × (get q d ≡ some r)
      × (is_ready r.state ≡ true)
      × (is_enabled r.state ≡ false)
      × (r.manifest.dependencies ≡ next ∷ later)
      × (cycle next ≡ true)

module _ (entry_exists : String → String → Bool)
    (import_class : PluginManifest → Option (Option Plugin)) where
  -- Where a rank goes down from each plugin to its dependencies, enable returns with fuel above the
  -- rank of the plugin.
  pub enable_returns :
      (rank : String → ℕ) (fuel : ℕ) (id : String) (m : Manager)
      → rank id < fuel
      → IsAcyclic rank m.plugins
      → (p : Manager × Bool) × (enable entry_exists import_class fuel id m ≡ some p)
  unfolding enable enable_step
  enable_returns rank zero id m below acyclic = elim below [ ]
  enable_returns rank (suc fuel) id m below acyclic = elim (Option-cases (get id m.plugins)) [
    | inl e ↦ ((m, false), rw (e, enable_step) refl)
    | inr (r, e) ↦ elim (Bool-cases (is_enabled r.state)) [
      | inl on ↦ ((m, true), rw (e, on, enable_step) refl)
      | inr off ↦
          let p = make_ready entry_exists import_class id r.state m in
          let keeps = make_ready_Keeps entry_exists import_class id r m e off in
          let less : (q : String) → rank q < rank id → rank q < fuel = λ q h. omega arith in
          rw (e, off, enable_step)
            (ready-Returns rank (enable entry_exists import_class fuel)
              (enable_IsSound entry_exists import_class fuel) fuel
              (λ q n. enable_returns rank fuel q n) id r.manifest.dependencies p
              (All-map less r.manifest.dependencies (acyclic id r e))
              (Keeps-IsAcyclic rank m.plugins p.0.plugins keeps acyclic))
    ]
  ]

  -- If the plugins of a set are loaded and not enabled, and the first dependency of each is in the set,
  -- then enable does not return on any of them, whatever the fuel.
  pub enable_cycle_loops :
      (cycle : String → Bool) (fuel : ℕ) (id : String) (m : Manager)
      → OnCycle cycle m.plugins
      → cycle id ≡ true
      → enable entry_exists import_class fuel id m ≡ none
  unfolding enable enable_step make_ready enable_ready enable_loaded enable_dependencies
  enable_cycle_loops cycle zero id m looped on = refl
  enable_cycle_loops cycle (suc fuel) id m looped on =
      let (r, next, later, found, ready, off, first, onward) = looped id on in
      let (s, _, _, there, _, off', _, _) = looped next onward in
      let ih = enable_cycle_loops cycle fuel next m looped onward in
      let step : enable_dependencies (enable entry_exists import_class fuel) (next ∷ later) m
          ≡ none =
        rw (there, off', ih, enable_dependencies) refl in
      rw (found, off, ready, first, enable_step, make_ready) (rw (step, enable_loaded) refl)
