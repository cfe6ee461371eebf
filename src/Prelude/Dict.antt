-- ===== src/Prelude/Dict.antt =====
-- Python's dict: an association list in insertion order. A key that is there keeps its place.
-- `delete` takes out every entry of the key; a dict has at most one.
use mathlib.Core.Path.{◌≡◌, refl}
use mathlib.Core.Logic.{inl, inr}
use mathlib.Core.Option.{Option, none, some}
use mathlib.Core.List.{List, [], ◌∷◌, map}
use native.Mathlib.Omega.{arith}
use maestro_orchestrator.Prelude.Tests.{if◌then◌else◌, HasEquality, Bool-cases, beq_refl}
use maestro_orchestrator.Prelude.Lists.{All, Any}

abbrev pub Dict {ℓ κ} : Type ℓ → Type κ → Type (ℓ ⊔ κ)
Dict K V = List (K × V)

module _ {ℓ κ} {K : Type ℓ} {V : Type κ} where
  -- d.values()
  abbrev pub values : Dict K V → List V
  values d = map (λ e. e.1) d

  -- d.keys()
  abbrev pub keys : Dict K V → List K
  keys d = map (λ e. e.0) d

module _ {ℓ κ} {K : Type ℓ} {V : Type κ} ⦃e : HasEquality K⦄ where
  -- d.get(k)
  unfoldable pub get : K → Dict K V → Option V
  get k [] = none
  get k ((j, v) ∷ d) = if e.equals j k then some v else get k d

  -- d[k] = v
  unfoldable pub set : K → V → Dict K V → Dict K V
  set k v [] = (k, v) ∷ []
  set k v ((j, w) ∷ d) = if e.equals j k then (j, v) ∷ d else (j, w) ∷ set k v d

  -- del d[k], d.pop(k, None)
  unfoldable pub delete : K → Dict K V → Dict K V
  delete k [] = []
  delete k ((j, w) ∷ d) = let rest = delete k d in if e.equals j k then rest else (j, w) ∷ rest

  pub get-set :
      (k j : K) (v : V) (d : Dict K V)
      → get j (set k v d) ≡ (if e.equals k j then some v else get j d)
  unfolding get set
  get-set k j v [] = refl
  get-set k j v ((i, w) ∷ d) =
      ground (arith, e.equals_iff k j, e.equals_iff i k, e.equals_iff i j, get-set k j v d)

  pub get-delete :
      (k j : K) (d : Dict K V) → get j (delete k d) ≡ (if e.equals k j then none else get j d)
  unfolding get delete
  get-delete k j [] = ground arith
  get-delete k j ((i, w) ∷ d) =
      ground (arith, e.equals_iff k j, e.equals_iff i k, e.equals_iff i j, get-delete k j d)

  pub get-set_self : (k : K) (v : V) (d : Dict K V) → get k (set k v d) ≡ some v
  get-set_self k v d = rw (get-set, beq_refl k)

  pub get-delete_self : (k : K) (d : Dict K V) → get k (delete k d) ≡ none
  get-delete_self k d = rw (get-delete, beq_refl k)

  pub get-nil : (k : K) → get k [] ≡ none
  unfolding get
  get-nil k = refl

module _ {ℓ κ ν} {K : Type ℓ} {V : Type κ} (P : V → Type ν) ⦃e : HasEquality K⦄ where
  pub All-set : (k : K) (v : V) (d : Dict K V) → P v → All P (values d) → All P (values (set k v d))
  unfolding set
  All-set k v [] p h = (p, tt)
  All-set k v ((j, w) ∷ d) p h = elim (Bool-cases (e.equals j k)) [
    | inl q ↦ rw q (p, h.1)
    | inr q ↦ rw q (h.0, All-set k v d p h.1)
  ]

  pub All-delete : (k : K) (d : Dict K V) → All P (values d) → All P (values (delete k d))
  unfolding delete
  All-delete k [] h = tt
  All-delete k ((j, w) ∷ d) h = elim (Bool-cases (e.equals j k)) [
    | inl q ↦ rw q (All-delete k d h.1)
    | inr q ↦ rw q (h.0, All-delete k d h.1)
  ]

  pub All-get : (k : K) {v : V} (d : Dict K V) → All P (values d) → get k d ≡ some v → P v
  unfolding get
  All-get k [] h q = cc
  All-get k {v} ((j, w) ∷ d) h q = elim (Bool-cases (e.equals j k)) [
    | inl b ↦ let same : w ≡ v = ground arith in rw same at h.0
    | inr b ↦ All-get k d h.1 (ground arith)
  ]

-- The same for a property of the entries, key and value.
module _ {ℓ κ ν} {K : Type ℓ} {V : Type κ} (P : K × V → Type ν) ⦃e : HasEquality K⦄ where
  pub All-set_entry : (k : K) (v : V) (d : Dict K V) → P (k, v) → All P d → All P (set k v d)
  unfolding set
  All-set_entry k v [] p h = (p, tt)
  All-set_entry k v ((j, w) ∷ d) p h = elim (Bool-cases (e.equals j k)) [
    | inl q ↦ rw q (rw ((e.equals_iff j k).0 q) p, h.1)
    | inr q ↦ rw q (h.0, All-set_entry k v d p h.1)
  ]

  pub All-delete_entry : (k : K) (d : Dict K V) → All P d → All P (delete k d)
  unfolding delete
  All-delete_entry k [] h = tt
  All-delete_entry k ((j, w) ∷ d) h = elim (Bool-cases (e.equals j k)) [
    | inl q ↦ rw q (All-delete_entry k d h.1)
    | inr q ↦ rw q (h.0, All-delete_entry k d h.1)
  ]

  pub All-get_entry : (k : K) {v : V} (d : Dict K V) → All P d → get k d ≡ some v → P (k, v)
  unfolding get
  All-get_entry k [] h q = cc
  All-get_entry k {v} ((j, w) ∷ d) h q = elim (Bool-cases (e.equals j k)) [
    | inl b ↦
        let same : w ≡ v = ground arith in
        let key = (e.equals_iff j k).0 b in rw same at (rw key at h.0)
    | inr b ↦ All-get_entry k d h.1 (ground arith)
  ]

pub get-cons {ℓ κ} :
    {K : Type ℓ} {V : Type κ} ⦃e : HasEquality K⦄ (k j : K) (v : V) (d : Dict K V)
    → get k ((j, v) ∷ d) ≡ (if e.equals j k then some v else get k d)
unfolding get
get-cons k j v d = refl

-- No key twice, as in any dict.
module _ {ℓ κ} {K : Type ℓ} {V : Type κ} ⦃e : HasEquality K⦄ where
  abbrev pub UniqueKeys : Dict K V → Type κ
  UniqueKeys [] = Unit
  UniqueKeys ((k, v) ∷ d) = (get k d ≡ none) × UniqueKeys d

  pub set-UniqueKeys : (k : K) (v : V) (d : Dict K V) → UniqueKeys d → UniqueKeys (set k v d)
  unfolding set get
  set-UniqueKeys k v [] h = (refl, tt)
  set-UniqueKeys k v ((j, w) ∷ d) h = elim (Bool-cases (e.equals j k)) [
    | inl q ↦ rw q h
    | inr q ↦ rw q (
      ground (arith, get-set k j v d, e.equals_iff k j, e.equals_iff j k),
      set-UniqueKeys k v d h.1,
    )
  ]

  pub delete-UniqueKeys : (k : K) (d : Dict K V) → UniqueKeys d → UniqueKeys (delete k d)
  unfolding delete get
  delete-UniqueKeys k [] h = tt
  delete-UniqueKeys k ((j, w) ∷ d) h = elim (Bool-cases (e.equals j k)) [
    | inl q ↦ rw q (delete-UniqueKeys k d h.1)
    | inr q ↦
        rw q (ground (arith, get-delete k j d, e.equals_iff k j, h.0), delete-UniqueKeys k d h.1)
  ]

-- What stands in a dict whose values know their keys is found under its key.
pub get_of_value :
    {K V : Type 0} ⦃e : HasEquality K⦄ (key : V → K) (d : Dict K V) (v : V)
    → UniqueKeys d
    → All (λ t. key t.1 ≡ t.0) d
    → Any (λ w. w ≡ v) (values d)
    → get (key v) d ≡ some v
unfolding get
get_of_value key [] v u h a = absurd a
get_of_value ⦃e⦄ key ((j, w) ∷ d) v u h (inl q) =
    let id : key w ≡ j = h.0 in rw (← q, id, beq_refl j) refl
get_of_value ⦃e⦄ key ((j, w) ∷ d) v u h (inr a) =
    let ih = get_of_value key d v u.1 h.1 a in
    let first : get j d ≡ none = u.0 in
    elim (Bool-cases (e.equals j (key v))) [
      | inl q ↦ absurd (let same = (e.equals_iff j (key v)).0 q in cc)
      | inr q ↦ rw q ih
    ]
