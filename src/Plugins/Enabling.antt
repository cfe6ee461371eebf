-- ===== src/Plugins/Enabling.antt =====
-- `enable` of maestro/plugins/manager.py and the dependencies of a plugin: the loop over the dependencies and
-- the activation.
use maestro_orchestrator.Prelude.{
  String, ◌≡◌, ◌⊎◌, refl, ap, sym, subst, ◌∙◌, Bool, true, false, Option, none, some, some-inj,
  List, [], ◌∷◌, ◌==◌, text_keys, inl, inr, Bool-cases, Option-cases, eq_iff,
}
use maestro_orchestrator.Prelude.Lists.{All, All-map}
use maestro_orchestrator.Prelude.Dict.{get}
use maestro_orchestrator.Plugins.{
  enabled, error, refused, raised, dependency_failed, Plugin, PluginRecord, Manager, run_calls,
  run_script,
}
use maestro_orchestrator.Plugins.Lifecycle.{
  is_enabled, enable_dependencies, activated, activate_plugin, instance_of, enable_loaded,
}
use maestro_orchestrator.Plugins.Growth.{
  Table, Grows, Grows-refl, Grows-at, Keeps, mark-Keeps, run_calls_plugins, IsOn, IsSettled,
  Keeps-IsOn, Keeps_trans, IsOn-mark, mark_elsewhere,
}

abbrev pub Enabler : Type 0
Enabler = String → Manager → Option (Manager × Bool)

-- What the recursive calls are known to do.
abbrev pub IsSound : Enabler → Type 0
IsSound enable_one =
    (q : String) (m m' : Manager) (ok : Bool)
    → enable_one q m ≡ some (m', ok)
    → Keeps m.plugins m'.plugins × (ok ≡ true → IsOn q m')

abbrev pub Settles : List String → Manager → Manager → Option String → Type 0
Settles ids m m' failed =
    Keeps m.plugins m'.plugins × (failed ≡ none → All (λ q. IsSettled q m') ids)

module _ (enable_one : Enabler) (sound : IsSound enable_one) where
  settle_one :
      (id : String) (ids : List String) (m m' : Manager) (failed : Option String) (r : PluginRecord)
      (o : Option (Manager × Bool))
      → get id m.plugins ≡ some r
      → is_enabled r.state ≡ false
      → enable_one id m ≡ o
      → enable_dependencies enable_one (id ∷ ids) m ≡ some (m', failed)
      → ((n : Manager)
          → enable_dependencies enable_one ids n ≡ some (m', failed)
          → Settles ids n m' failed)
      → Settles (id ∷ ids) m m' failed
  unfolding enable_dependencies
  settle_one id ids m m' failed r none found off e h later =
      absurd (let bad = rw (found, off, e, enable_dependencies) at h in cc)
  settle_one id ids m m' failed r (some (n, true)) found off e h later =
      let (keeps, all) = later n (rw (found, off, e, enable_dependencies) at h) in
      let (first, on) = sound id m n true e in
      (
        Keeps_trans m.plugins n.plugins m'.plugins first keeps,
        λ z. (inr (Keeps-IsOn id n m' keeps (on refl)), all z),
      )
  settle_one id ids m m' failed r (some (n, false)) found off e h later =
      let ends = some-inj (rw (found, off, e, enable_dependencies) at h) in
      let (first, on) = sound id m n false e in
      (
        subst (λ (x : Manager). Keeps m.plugins x.plugins) (ap (λ x. x.0) ends) first,
        λ z. absurd (cc),
      )

  enable_dependencies_sound :
      (ids : List String) (m m' : Manager) (failed : Option String)
      → enable_dependencies enable_one ids m ≡ some (m', failed)
      → Settles ids m m' failed
  unfolding enable_dependencies
  enable_dependencies_sound [] m m' failed h =
      let ends = some-inj h in
      (
        subst (λ (x : Manager). Keeps m.plugins x.plugins) (ap (λ x. x.0) ends)
            (λ q. Grows-refl (get q m.plugins)),
        λ z. tt,
      )
  enable_dependencies_sound (id ∷ ids) m m' failed h = elim (Option-cases (get id m.plugins)) [
    | inl e ↦
        let (keeps, all) =
          enable_dependencies_sound ids m m' failed (rw (e, enable_dependencies) at h) in
        (keeps, λ z. (inl (Grows-at e refl (keeps id)), all z))
    | inr (r, e) ↦ elim (Bool-cases (is_enabled r.state)) [
      | inl on ↦
          let (keeps, all) =
            enable_dependencies_sound ids m m' failed (rw (e, on, enable_dependencies) at h) in
          (keeps, λ z. (inr (Keeps-IsOn id m m' keeps (r, e, on)), all z))
      | inr off ↦
          settle_one id ids m m' failed r (enable_one id m) e off refl h
            (λ n. enable_dependencies_sound ids n m' failed)
    ]
  ]

-- After an activation: an entry is kept as far as `Grows` says, and success means enabled.
abbrev pub IsGood : Table → String → Manager × Bool → Type 0
IsGood d id (m, ok) = Keeps d m.plugins × (ok ≡ true → IsOn id m)

activated_elsewhere :
    (id q : String) (m : Manager) (answer : Option Bool)
    → (id == q) ≡ false
    → get q (activated id (m, answer)).0.plugins ≡ get q m.plugins
unfolding activated
activated_elsewhere id q m (some true) other = mark_elsewhere id q enabled none m other
activated_elsewhere id q m (some false) other = mark_elsewhere id q error (some refused) m other
activated_elsewhere id q m none other = mark_elsewhere id q error (some raised) m other

activate_plugin_elsewhere :
    (id q : String) (p : Option Plugin) (m : Manager)
    → (id == q) ≡ false
    → get q (activate_plugin id p m).0.plugins ≡ get q m.plugins
unfolding activate_plugin run_script
activate_plugin_elsewhere id q none m other = activated_elsewhere id q m none other
activate_plugin_elsewhere id q (some p) m other =
    let after = run_calls id p.activate.calls p.activate.answer m in
    activated_elsewhere id q after.0 after.1 other
    ∙ ap (get q) (run_calls_plugins id p.activate.calls p.activate.answer m)

-- What a plugin that could be made ready has come to, with its dependencies.
abbrev pub Ends : Table → String → List String → Manager × Bool → Type 0
Ends d id ids p = IsGood d id p × (p.1 ≡ true → All (λ q. IsSettled q p.0) ids)

-- A plugin that was there and off.
module _ (id : String) (d : Table) (r : PluginRecord) (found : get id d ≡ some r)
    (off : is_enabled r.state ≡ false) where
  activated-IsGood :
      (m : Manager) (answer : Option Bool)
      → Keeps d m.plugins
      → IsGood d id (activated id (m, answer))
  unfolding activated
  activated-IsGood m (some true) keeps =
      let (s, there, same, on) : Grows (some r) (get id m.plugins) =
        Grows-at found refl (keeps id) in
      (mark-Keeps id enabled none d r m keeps found off, λ z. IsOn-mark id m s there)
  activated-IsGood m (some false) keeps =
      (mark-Keeps id error (some refused) d r m keeps found off, λ z. absurd (cc))
  activated-IsGood m none keeps =
      (mark-Keeps id error (some raised) d r m keeps found off, λ z. absurd (cc))

  activate_plugin-IsGood :
      (p : Option Plugin) (m : Manager) → Keeps d m.plugins → IsGood d id (activate_plugin id p m)
  unfolding activate_plugin run_script
  activate_plugin-IsGood none m keeps = activated-IsGood m none keeps
  activate_plugin-IsGood (some p) m keeps =
      let after = run_calls id p.activate.calls p.activate.answer m in
      let same = run_calls_plugins id p.activate.calls p.activate.answer m in
      activated-IsGood after.0 after.1 (subst (Keeps d) (sym same) keeps)

  IsSettled-after :
      (p : Option Plugin) (n : Manager) (q : String)
      → Keeps d n.plugins
      → (activate_plugin id p n).1 ≡ true
      → IsSettled q n
      → IsSettled q (activate_plugin id p n).0
  IsSettled-after p n q keeps ok before = elim (Bool-cases (id == q)) [
    | inl e ↦
        let on = (activate_plugin-IsGood p n keeps).1 ok in
        inr (subst (λ i. IsOn i (activate_plugin id p n).0) ((eq_iff id q).0 e) on)
    | inr e ↦
        let same = sym (activate_plugin_elsewhere id q p n e) in
        subst (λ o. (o ≡ none) ⊎ ((s : PluginRecord) × (o ≡ some s) × (is_enabled s.state ≡ true)))
          same before
  ]

  module _ (enable_one : Enabler) (sound : IsSound enable_one) where
    pub ended :
        (ids : List String) (m : Manager) (p : Manager × Bool)
        (o : Option (Manager × Option String))
        → Keeps d m.plugins
        → enable_dependencies enable_one ids m ≡ o
        → enable_loaded enable_one id ids m ≡ some p
        → Ends d id ids p
    unfolding enable_loaded
    ended ids m p none keeps e h = absurd (let bad = rw (e, enable_loaded) at h in cc)
    ended ids m p (some (n, some failed)) keeps e h =
        let ends = some-inj (rw (e, enable_loaded) at h) in
        let (later, _) = enable_dependencies_sound enable_one sound ids m n (some failed) e in
        let kept = Keeps_trans d m.plugins n.plugins keeps later in
        subst (Ends d id ids) ends (
          (
            mark-Keeps id error (some (dependency_failed failed)) d r n kept found off,
            λ z. absurd (cc),
          ),
          λ z. absurd (cc),
        )
    ended ids m p (some (n, none)) keeps e h =
        let ends = some-inj (rw (e, enable_loaded) at h) in
        let (later, all) = enable_dependencies_sound enable_one sound ids m n none e in
        let kept = Keeps_trans d m.plugins n.plugins keeps later in
        let i = instance_of id n in
        subst (Ends d id ids) ends (
          activate_plugin-IsGood i n kept,
          λ ok.
              All-map {P = λ q. IsSettled q n} (λ q. IsSettled-after i n q kept ok) ids (all refl),
        )
