-- ===== src/Plugins/Growth.antt =====
-- How the records of the plugins change while `enable` of maestro/plugins/manager.py runs.
use maestro_orchestrator.Prelude.{
  String, ◌≡◌, ◌⊎◌, refl, ap, sym, subst, ◌∙◌, Bool, true, false, Option, none, some, some-inj,
  List, [], ◌∷◌, ◌==◌, text_keys, arith, inl, inr, Bool-cases, Option-cases, eq_iff,
}
use maestro_orchestrator.Prelude.Dict.{Dict, get, set, get-set, get-set_self}
use maestro_orchestrator.Plugins.{
  PluginState, enabled, Plugin, PluginError, PluginRecord, Manager, PluginCall, hook, unhook,
  subscribe, agent, drop_agent, perform, plugin_register_hook, register_hook, unregister_hook,
  run_calls,
}
use maestro_orchestrator.Plugins.Lifecycle.{is_enabled, mark, put_instance}

abbrev pub Table : Type 0
Table = Dict String PluginRecord

-- What may become of an entry while plugins are being enabled.
abbrev pub Grows : Option PluginRecord → Option PluginRecord → Type 0
Grows none o = o ≡ none
Grows (some r) o =
    (s : PluginRecord) × (o ≡ some s)
    × (s.manifest ≡ r.manifest)
    × (is_enabled r.state ≡ true → is_enabled s.state ≡ true)

pub Grows-refl : (o : Option PluginRecord) → Grows o o
Grows-refl none = refl
Grows-refl (some r) = (r, refl, refl, λ h. h)

pub Grows-trans : (a b c : Option PluginRecord) → Grows a b → Grows b c → Grows a c
Grows-trans none b c h k = let k' = rw h at k in k'
Grows-trans (some r) b c (s, e, m, on) k =
    let k' : Grows (some s) c = rw e at k in (k'.0, k'.1, k'.2 ∙ m, λ h. k'.3 (on h))

pub Grows-at : {a b a' b' : Option PluginRecord} → a ≡ a' → b ≡ b' → Grows a b → Grows a' b'
Grows-at {b = b} {a' = a'} p q h = subst (λ o. Grows a' o) q (subst (λ o. Grows o b) p h)

abbrev pub Keeps : Table → Table → Type 0
Keeps d d' = (q : String) → Grows (get q d) (get q d')

-- A write to an entry that was not enabled at the start, by a record with the same manifest.
pub write-Keeps :
    (id : String) (d d' : Table) (r r' s : PluginRecord)
    → Keeps d d'
    → get id d ≡ some r
    → is_enabled r.state ≡ false
    → get id d' ≡ some r'
    → s.manifest ≡ r'.manifest
    → Keeps d (set id s d')
write-Keeps id d d' r r' s keeps found off found' same q = elim (Bool-cases (id == q)) [
  | inl e ↦
      let here = (eq_iff id q).0 e in
      let was : get q d ≡ some r = ap (λ i. get i d) (sym here) ∙ found in
      let is : get q d' ≡ some r' = ap (λ i. get i d') (sym here) ∙ found' in
      let old : Grows (some r) (some r') = Grows-at was is (keeps q) in
      let manifests : s.manifest ≡ r.manifest =
        same ∙ ap (λ (x : PluginRecord). x.manifest) (some-inj old.1) ∙ old.2 in
      let stored : some s ≡ get q (set id s d') = rw (get-set, e) refl in
      Grows-at (sym was) stored (s, refl, manifests, λ h. cc)
  | inr e ↦
      let stored : get q d' ≡ get q (set id s d') = rw (get-set, e) refl in
      Grows-at refl stored (keeps q)
]

pub mark-Keeps :
    (id : String) (state : PluginState) (x : Option PluginError) (d : Table) (r : PluginRecord)
    (m : Manager)
    → Keeps d m.plugins
    → get id d ≡ some r
    → is_enabled r.state ≡ false
    → Keeps d (mark id state x m).plugins
unfolding mark
mark-Keeps id state x d r m keeps found off = elim (Option-cases (get id m.plugins)) [
  | inl e ↦ rw (e, mark) keeps
  | inr (r', e) ↦
      rw (e, mark)
        (write-Keeps id d m.plugins r r' (record r' { state = state; error_ = x }) keeps found off e
          refl)
]

pub put_instance-Keeps :
    (id : String) (p : Option Plugin) (state : PluginState) (d : Table) (r : PluginRecord)
    (m : Manager)
    → Keeps d m.plugins
    → get id d ≡ some r
    → is_enabled r.state ≡ false
    → Keeps d (put_instance id p state m).plugins
unfolding put_instance
put_instance-Keeps id p state d r m keeps found off = elim (Option-cases (get id m.plugins)) [
  | inl e ↦ rw (e, put_instance) keeps
  | inr (r', e) ↦
      rw (e, put_instance)
        (write-Keeps id d m.plugins r r' (record r' { state = state; instance_ = p }) keeps found
          off e refl)
]

-- A plugin's own calls leave the records alone.
pub perform_plugins :
    (id : String) (c : PluginCall) (m m' : Manager)
    → perform id c m ≡ some m'
    → m'.plugins ≡ m.plugins
unfolding perform plugin_register_hook register_hook unregister_hook
perform_plugins id (hook point c) m m' h = ground arith
perform_plugins id (unhook point c) m m' h = ground arith
perform_plugins id (subscribe event c) m m' h = ground arith
perform_plugins id (agent name object) m m' h = ground arith
perform_plugins id (drop_agent name) m m' h = ground arith

pub run_calls_plugins :
    (id : String) (cs : List PluginCall) (answer : Option Bool) (m : Manager)
    → (run_calls id cs answer m).0.plugins ≡ m.plugins
unfolding run_calls
run_calls_plugins id [] answer m = refl
run_calls_plugins id (c ∷ cs) answer m = elim (Option-cases (perform id c m)) [
  | inl e ↦ rw (e, run_calls) refl
  | inr (m', e) ↦
      rw (e, run_calls) (run_calls_plugins id cs answer m' ∙ perform_plugins id c m m' e)
]

abbrev pub IsOn : String → Manager → Type 0
IsOn q m = (r : PluginRecord) × (get q m.plugins ≡ some r) × (is_enabled r.state ≡ true)

-- Enabled, or not there.
abbrev pub IsSettled : String → Manager → Type 0
IsSettled q m = (get q m.plugins ≡ none) ⊎ IsOn q m

pub Keeps-IsOn : (q : String) (m m' : Manager) → Keeps m.plugins m'.plugins → IsOn q m → IsOn q m'
Keeps-IsOn q m m' keeps (r, found, on) =
    let new : Grows (some r) (get q m'.plugins) = Grows-at found refl (keeps q) in
    (new.0, new.1, new.3 on)

pub Keeps-IsSettled :
    (m m' : Manager) → Keeps m.plugins m'.plugins → (q : String) → IsSettled q m → IsSettled q m'
Keeps-IsSettled m m' keeps q (inl missing) = inl (Grows-at missing refl (keeps q))
Keeps-IsSettled m m' keeps q (inr on) = inr (Keeps-IsOn q m m' keeps on)

pub Keeps_trans : (d e f : Table) → Keeps d e → Keeps e f → Keeps d f
Keeps_trans d e f h k q = Grows-trans (get q d) (get q e) (get q f) (h q) (k q)

pub IsOn-mark :
    (id : String) (m : Manager) (r : PluginRecord)
    → get id m.plugins ≡ some r
    → IsOn id (mark id enabled none m)
unfolding mark is_enabled
IsOn-mark id m r e =
    let s : PluginRecord = record r { state = enabled; error_ = none } in
    (s, rw (e, mark, get-set_self id s m.plugins) refl, refl)

pub mark_elsewhere :
    (id q : String) (state : PluginState) (x : Option PluginError) (m : Manager)
    → (id == q) ≡ false
    → get q (mark id state x m).plugins ≡ get q m.plugins
unfolding mark
mark_elsewhere id q state x m other = elim (Option-cases (get id m.plugins)) [
  | inl e ↦ rw (e, mark) refl
  | inr (r, e) ↦ rw (e, mark, get-set, other) refl
]
