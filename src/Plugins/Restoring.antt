-- ===== src/Plugins/Restoring.antt =====
-- What a restored snapshot of maestro/plugins/manager.py brings back.
use maestro_orchestrator.Prelude.{
  String, ◌≡◌, refl, ap, sym, ◌∙◌, Option, none, some, [], ◌∷◌, ◌==◌, text_keys, inl, inr,
  Bool-cases, eq_iff,
}
use maestro_orchestrator.Prelude.Dict.{Dict, get, set, get-set, UniqueKeys}
use maestro_orchestrator.Plugins.{Manager, Config}
use maestro_orchestrator.Plugins.Snapshots.{get_plugin_config, merge}

merge_elsewhere :
    (updates old : Config) (k : String)
    → get k updates ≡ none
    → get k (merge updates old) ≡ get k old
unfolding merge get
merge_elsewhere [] old k h = refl
merge_elsewhere ((j, v) ∷ updates) old k h = elim (Bool-cases (j == k)) [
  | inl e ↦ absurd (let bad = rw e at h in cc)
  | inr e ↦ merge_elsewhere updates (set j v old) k (rw e at h) ∙ get-set j k v old ∙ rw e refl
]

abbrev pub or_else : {A : Type 0} → Option A → Option A → Option A
or_else none o = o
or_else (some a) o = some a

-- dict.update: the new values, and the old ones under other keys.
pub get-merge :
    (updates old : Config) (k : String)
    → UniqueKeys updates
    → get k (merge updates old) ≡ or_else (get k updates) (get k old)
unfolding merge get
get-merge [] old k u = refl
get-merge ((j, v) ∷ updates) old k u = elim (Bool-cases (j == k)) [
  | inl e ↦
      let same = (eq_iff j k).0 e in
      let later : get k updates ≡ none = ap (λ i. get i updates) (sym same) ∙ u.0 in
      merge_elsewhere updates (set j v old) k later ∙ get-set j k v old ∙ rw e refl
  | inr e ↦
      let kept : get k (set j v old) ≡ get k old = get-set j k v old ∙ rw e refl in
      get-merge updates (set j v old) k u.1 ∙ rw (e, kept) refl
]

-- What is set under a key of a plugin's configuration.
abbrev pub setting_of : String → String → Manager → Option String
setting_of id k m = get k (get_plugin_config id m)

abbrev or_blank : Option Config → Config
or_blank o = elim o [ none ↦ [] | some c ↦ c ]

abbrev config_in : String → Dict String Config → Config
config_in id d = or_blank (get id d)
