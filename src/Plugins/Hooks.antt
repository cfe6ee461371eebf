-- ===== src/Plugins/Hooks.antt =====
-- The hooks that `_remove_plugin_hooks` takes out, and those that it leaves.
use maestro_orchestrator.Prelude.{
  ℕ, ◌-◌, String, ◌≡◌, refl, ap, sym, ◌∙◌, true, false, none, some, List, [], ◌∷◌, ◌==◌, text_keys,
  if◌then◌else◌, arith, inl, inr, Bool-cases, Option-cases, beq_refl, eq_iff,
}
use maestro_orchestrator.Prelude.Lists.{count_if, contains}
use maestro_orchestrator.Prelude.Dict.{get, set, get-set}
use maestro_orchestrator.Plugins.{
  PluginState, disabled, PluginRecord, Manager, hook_points, hooks_at, owners_at, remove_first,
  remove_all, owned_by, not_owned_by, remove_hooks_at, remove_hooks_in, remove_plugin_hooks,
}
use maestro_orchestrator.Plugins.Lifecycle.{
  is_enabled, put_state, deactivated, disable, was_enabled,
}

-- How often a callback is registered.
abbrev pub occurrences : String → List String → ℕ
occurrences c = count_if (λ x. x == c)

occurrences-remove_first :
    (c d : String) (xs : List String)
    → occurrences c (remove_first d xs) ≡ occurrences c xs - (if d == c then 1 else 0)
unfolding remove_first
occurrences-remove_first c d [] = ground arith
occurrences-remove_first c d (x ∷ xs) =
    ground (arith, occurrences-remove_first c d xs, eq_iff x d, eq_iff x c, eq_iff d c)

pub occurrences-remove_all :
    (c : String) (ds xs : List String)
    → occurrences c (remove_all ds xs) ≡ occurrences c xs - occurrences c ds
unfolding remove_all
occurrences-remove_all c [] xs = omega arith
occurrences-remove_all c (d ∷ ds) xs =
    ground (arith, occurrences-remove_all c ds (remove_first d xs), occurrences-remove_first c d xs)

-- The owners of a plugin that has been taken out.
pub owned_by-not_owned_by :
    (id : String) (os : List (String × String)) → owned_by id (not_owned_by id os) ≡ []
unfolding owned_by not_owned_by
owned_by-not_owned_by id [] = refl
owned_by-not_owned_by id (o ∷ os) = elim (Bool-cases (o.0 == id)) [
  | inl q ↦ rw q (owned_by-not_owned_by id os)
  | inr q ↦ rw (q, q) (owned_by-not_owned_by id os)
]

not_owned_by_twice :
    (id : String) (os : List (String × String))
    → not_owned_by id (not_owned_by id os) ≡ not_owned_by id os
unfolding not_owned_by
not_owned_by_twice id [] = refl
not_owned_by_twice id (o ∷ os) = elim (Bool-cases (o.0 == id)) [
  | inl q ↦ rw q (not_owned_by_twice id os)
  | inr q ↦ rw (q, q) (ap (λ l. o ∷ l) (not_owned_by_twice id os))
]

-- The hooks and the owners of one point, and both without a plugin.
abbrev At : Type 0
At = List String × List (String × String)

abbrev sweep : String → At → At
sweep id (cs, os) = (remove_all (owned_by id os) cs, not_owned_by id os)

sweep_twice : (id : String) (a : At) → sweep id (sweep id a) ≡ sweep id a
unfolding remove_all
sweep_twice id (cs, os) = rw (owned_by-not_owned_by id os, not_owned_by_twice id os) refl

abbrev at_point : String → Manager → At
at_point point m = (hooks_at point m, owners_at point m)

remove_all_nil : (cs : List String) → remove_all cs [] ≡ []
unfolding remove_all remove_first
remove_all_nil [] = refl
remove_all_nil (c ∷ cs) = remove_all_nil cs

hooks_unchanged :
    (id point : String) (m : Manager)
    → get point m.hooks ≡ none
    → (remove_hooks_at id point m).hooks ≡ m.hooks
unfolding remove_hooks_at
hooks_unchanged id point m e = rw (e, remove_hooks_at) refl

hooks_removed :
    (id point : String) (m : Manager) {cs : List String}
    → get point m.hooks ≡ some cs
    → (remove_hooks_at id point m).hooks
      ≡ set point (remove_all (owned_by id (owners_at point m)) cs) m.hooks
unfolding remove_hooks_at
hooks_removed id point m e = rw (e, remove_hooks_at) refl

hooks_at-remove_hooks_at :
    (id point other : String) (m : Manager)
    → hooks_at other (remove_hooks_at id point m) ≡ (
        if point == other
        then remove_all (owned_by id (owners_at other m)) (hooks_at other m)
        else hooks_at other m)
unfolding hooks_at
hooks_at-remove_hooks_at id point other m = elim (Bool-cases (point == other)) [
  | inl q ↦
      let same = (eq_iff point other).0 q in
      rw (q, same)
        (elim (Option-cases (get other m.hooks)) [
          | inl e ↦
              rw (hooks_unchanged id other m e, e)
                (sym (remove_all_nil (owned_by id (owners_at other m))))
          | inr (cs, e) ↦ rw (hooks_removed id other m e, e, get-set, beq_refl other) refl
        ])
  | inr q ↦ rw q (elim (Option-cases (get point m.hooks)) [
    | inl e ↦ rw (hooks_unchanged id point m e) refl
    | inr (cs, e) ↦ rw (hooks_removed id point m e, get-set, q) refl
  ])
]

owners_at-remove_hooks_at :
    (id point other : String) (m : Manager)
    → owners_at other (remove_hooks_at id point m)
      ≡ (if point == other then not_owned_by id (owners_at other m) else owners_at other m)
unfolding remove_hooks_at owners_at
owners_at-remove_hooks_at id point other m = elim (Bool-cases (point == other)) [
  | inl q ↦ let same = (eq_iff point other).0 q in rw (q, same, get-set, beq_refl other) refl
  | inr q ↦ rw (q, get-set, q) refl
]

at_point-remove_hooks_at :
    (id point other : String) (m : Manager)
    → at_point other (remove_hooks_at id point m)
      ≡ (if point == other then sweep id (at_point other m) else at_point other m)
at_point-remove_hooks_at id point other m =
    rw (hooks_at-remove_hooks_at id point other m, owners_at-remove_hooks_at id point other m)
      (ground arith)

at_point-remove_hooks_in :
    (id : String) (points : List String) (other : String) (m : Manager)
    → at_point other (remove_hooks_in id points m)
      ≡ (if contains points other then sweep id (at_point other m) else at_point other m)
unfolding remove_hooks_in
at_point-remove_hooks_in id [] other m = refl
at_point-remove_hooks_in id (point ∷ points) other m =
    let ih = at_point-remove_hooks_in id points other (remove_hooks_at id point m) in
    elim (Bool-cases (point == other)) [
      | inl q ↦
          let here : at_point other (remove_hooks_at id point m) ≡ sweep id (at_point other m) =
            at_point-remove_hooks_at id point other m ∙ rw q refl in
          elim (Bool-cases (contains points other)) [
            | inl c ↦
                let again = ap (sweep id) here ∙ sweep_twice id (at_point other m) in
                rw q (ih ∙ rw c again)
            | inr c ↦ rw q (ih ∙ rw c here)
          ]
      | inr q ↦
          let here : at_point other (remove_hooks_at id point m) ≡ at_point other m =
            at_point-remove_hooks_at id point other m ∙ rw q refl in
          elim (Bool-cases (contains points other)) [
            | inl c ↦ rw (q, c) (ih ∙ rw c (ap (sweep id) here))
            | inr c ↦ rw (q, c) (ih ∙ rw c here)
          ]
    ]

disable_lem :
    (id : String) (r : PluginRecord) (m : Manager)
    → get id m.plugins ≡ some r
    → is_enabled r.state ≡ true
    → disable id m
      ≡ (put_state id disabled (remove_plugin_hooks id (deactivated id r.instance_ m)), true)
unfolding disable
disable_lem id r m found on = rw (found, on, disable) refl

put_state_elsewhere :
    (id : String) (state : PluginState) (m : Manager) (point : String)
    → at_point point (put_state id state m) ≡ at_point point m
unfolding put_state hooks_at owners_at
put_state_elsewhere id state m point = elim (Option-cases (get id m.plugins)) [
  | inl e ↦ rw (e, put_state) refl
  | inr (r, e) ↦ rw (e, put_state) refl
]

was_enabled-put_state :
    (id : String) (state : PluginState) (m : Manager)
    → is_enabled state ≡ false
    → was_enabled id (put_state id state m) ≡ false
unfolding was_enabled put_state
was_enabled-put_state id state m off = elim (Option-cases (get id m.plugins)) [
  | inl e ↦ ground (arith, e)
  | inr (r, e) ↦
      ground (arith, e, get-set id id (record r { state = state }) m.plugins, beq_refl id)
]

-- When an enabled plugin is disabled, it is no longer enabled, and at each hook point every callback is
-- registered as often as after deactivate, less the times that it is registered for the plugin; nothing
-- stays registered for the plugin there, and what is registered for others stays.
pub disable_removes_hooks :
    (id : String) (r : PluginRecord) (m : Manager)
    → get id m.plugins ≡ some r
    → is_enabled r.state ≡ true
    → let left = deactivated id r.instance_ m in
      let m' = (disable id m).0 in
      (was_enabled id m' ≡ false)
      × ((point : String)
          → contains hook_points point ≡ true
          → ((c : String)
              → occurrences c (hooks_at point m')
                ≡ occurrences c (hooks_at point left)
                  - occurrences c (owned_by id (owners_at point left)))
            × (owned_by id (owners_at point m') ≡ [])
            × (not_owned_by id (owners_at point m') ≡ not_owned_by id (owners_at point left)))
unfolding is_enabled remove_plugin_hooks
disable_removes_hooks id r m found on =
    let left = deactivated id r.instance_ m in
    (
      rw (disable_lem id r m found on)
          (was_enabled-put_state id disabled (remove_plugin_hooks id left) refl),
      λ point known.
          let swept : at_point point (disable id m).0 ≡ sweep id (at_point point left) =
            rw (disable_lem id r m found on) (
              put_state_elsewhere id disabled (remove_plugin_hooks id left) point
              ∙ at_point-remove_hooks_in id hook_points point left
              ∙ rw known refl) in
          (
            λ c.
                ap (λ (a : At). occurrences c a.0) swept
                ∙ occurrences-remove_all c (owned_by id (owners_at point left))
                    (hooks_at point left),
            ap (λ (a : At). owned_by id a.1) swept
                ∙ owned_by-not_owned_by id (owners_at point left),
            ap (λ (a : At). not_owned_by id a.1) swept
                ∙ not_owned_by_twice id (owners_at point left),
          ),
    )
