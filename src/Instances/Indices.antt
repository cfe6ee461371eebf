-- ===== src/Instances/Indices.antt =====
-- The shard indices that maestro/instances.py gives out.
use maestro_orchestrator.Prelude.{
  ◌||◌, ℕ, zero, suc, ◌+◌, ◌≤◌, ◌<◌, ◌≡◌, ◌≢◌, ◌⊎◌, refl, ap, sym, ◌∙◌, true, false, not, some,
  some-inj, List, [], ◌∷◌, ◌++◌, number_keys, nat_beq, nat_beq_iff, arith, inl, inr, Bool-cases,
}
use maestro_orchestrator.Prelude.Lists.{length, length-keep-le, keep, contains}
use maestro_orchestrator.Prelude.Dict.{get, set, delete, get-set, get-delete, values}
use maestro_orchestrator.Instances.{
  shard, Entry, Instances, is_shard, used_index, used_indices, free_index,
}

without : ℕ → List ℕ → List ℕ
without i = keep (λ k. not (nat_beq k i))

length-without : (i : ℕ) (xs : List ℕ) → contains xs i ≡ true → length (without i xs) < length xs
unfolding without
length-without i [] h = absurd (cc)
length-without i (x ∷ xs) h =
    ground (arith, length-keep-le (λ k. not (nat_beq k i)) xs, length-without i xs)

contains-without :
    (i j : ℕ) (xs : List ℕ) → i ≢ j → contains xs j ≡ true → contains (without i xs) j ≡ true
unfolding without
contains-without i j [] other h = absurd (cc)
contains-without i j (x ∷ xs) other h = ground (arith, contains-without i j xs)

-- No more numbers than a list is long can all be in it.
pub pigeonhole : (k : ℕ) (xs : List ℕ) → ((i : ℕ) → i < k → contains xs i ≡ true) → k ≤ length xs
pigeonhole zero xs h = omega arith
pigeonhole (suc k) xs h =
    let fewer = length-without k xs (h k (omega arith)) in
    let rest =
      pigeonhole k (without k xs)
        (λ i below. contains-without k i xs (λ same. omega arith) (h i (omega arith))) in
    omega arith

-- The search from i comes to the first index that is not used, if all below i are used.
free_index_from :
    (fuel : ℕ) (used : List ℕ) (i : ℕ)
    → ((j : ℕ) → j < i → contains used j ≡ true)
    → length used < i + fuel
    → (r : ℕ) × (free_index fuel used i ≡ some r)
      × (contains used r ≡ false)
      × ((j : ℕ) → j < r → contains used j ≡ true)
unfolding free_index
free_index_from zero used i all enough = absurd (let small = pigeonhole i used all in omega arith)
free_index_from (suc fuel) used i all enough = elim (Bool-cases (contains used i)) [
  | inl e ↦ rw e (
      free_index_from fuel used (i + 1)
        (λ j below. elim (Bool-cases (nat_beq j i)) [
          | inl q ↦ rw ((nat_beq_iff j i).0 q) e
          | inr q ↦ all j (ground arith)
        ])
        (omega arith))
  | inr e ↦ rw e (i, refl, e, all)
]

-- With one round more than there are indices in use, the search finds the least index that is free.
pub free_index_least :
    (used : List ℕ)
    → (r : ℕ) × (free_index (length used + 1) used 0 ≡ some r)
      × (contains used r ≡ false)
      × ((j : ℕ) → j < r → contains used j ≡ true)
free_index_least used =
    free_index_from (length used + 1) used 0 (λ j below. absurd (omega arith)) (omega arith)

-- No two instances have one shard index, and only shards have one.
pub record IsIndexed (d : Instances) : Type 0 where
  pub apart :
      (i j : ℕ) (a b : Entry) (x : ℕ)
      → get i d ≡ some a
      → get j d ≡ some b
      → a.shard_index ≡ some x
      → b.shard_index ≡ some x
      → i ≡ j
  pub of_shards :
      (i : ℕ) (a : Entry) (x : ℕ) → get i d ≡ some a → a.shard_index ≡ some x → a.role ≡ shard

contains-append :
    (x : ℕ) (xs ys : List ℕ) → contains (xs ++ ys) x ≡ (contains xs x || contains ys x)
contains-append x [] ys = refl
contains-append x (y ∷ xs) ys = ground (arith, contains-append x xs ys)

-- The index of a shard of the registry is in use.
index-used :
    (d : Instances) (i : ℕ) (a : Entry) (x : ℕ)
    → get i d ≡ some a
    → a.shard_index ≡ some x
    → a.role ≡ shard
    → contains (used_indices (values d)) x ≡ true
unfolding get used_indices used_index is_shard
index-used [] i a x found index role = absurd (cc)
index-used ((j, e) ∷ d) i a x found index role =
    rw (contains-append x (used_index e) (used_indices (values d)))
      (elim (Bool-cases (nat_beq j i)) [
        | inl q ↦
            let same : e ≡ a = some-inj (rw q at found) in
            let mine : used_index e ≡ x ∷ [] = rw (same, role, index) refl in rw mine (ground arith)
        | inr q ↦
            let later = index-used d i a x (rw q at found) index role in rw later (ground arith)
      ])

stored :
    (n i : ℕ) (e a : Entry) (d : Instances)
    → get i (set n e d) ≡ some a
    → ((n ≡ i) × (e ≡ a)) ⊎ (get i d ≡ some a)
stored n i e a d p = elim (Bool-cases (nat_beq n i)) [
  | inl q ↦
      let here : some e ≡ some a = sym (get-set n i e d ∙ rw q refl) ∙ p in
      inl ((nat_beq_iff n i).0 q, some-inj here)
  | inr q ↦ inr (sym (get-set n i e d ∙ rw q refl) ∙ p)
]

-- An index that is free is not that of an instance of the registry.
not_free :
    (d : Instances) (i : ℕ) (a e : Entry) (x : ℕ)
    → IsIndexed d
    → ((y : ℕ)
        → e.shard_index ≡ some y
        → (e.role ≡ shard) × (contains (used_indices (values d)) y ≡ false))
    → get i d ≡ some a
    → a.shard_index ≡ some x
    → e.shard_index ≡ some x
    → ⊥
not_free d i a e x v fresh found index mine =
    let used = index-used d i a x found index (v.of_shards i a x found index) in
    let free = (fresh x mine).1 in cc

pub set-IsIndexed :
    (n : ℕ) (e : Entry) (d : Instances)
    → IsIndexed d
    → ((x : ℕ)
        → e.shard_index ≡ some x
        → (e.role ≡ shard) × (contains (used_indices (values d)) x ≡ false))
    → IsIndexed (set n e d)
set-IsIndexed n e d v fresh = record {
  apart = λ i j a b x p q index index'. elim (stored n i e a d p) [
    | inl (here, same) ↦ elim (stored n j e b d q) [
      | inl (here', same') ↦ sym here ∙ here'
      | inr old ↦
          absurd
            (not_free d j b e x v fresh old index' (ap (λ (t : Entry). t.shard_index) same ∙ index))
    ]
    | inr old ↦ elim (stored n j e b d q) [
      | inl (here', same') ↦
          absurd (
            not_free d i a e x v fresh old index (ap (λ (t : Entry). t.shard_index) same' ∙ index'))
      | inr old' ↦ v.apart i j a b x old old' index index'
    ]
  ];
  of_shards = λ i a x p index. elim (stored n i e a d p) [
    | inl (here, same) ↦
        sym (ap (λ (t : Entry). t.role) same)
        ∙ (fresh x (ap (λ (t : Entry). t.shard_index) same ∙ index)).0
    | inr old ↦ v.of_shards i a x old index
  ];
}

pub delete-IsIndexed : (n : ℕ) (d : Instances) → IsIndexed d → IsIndexed (delete n d)
delete-IsIndexed n d v = record {
  apart = λ i j a b x p q index index'.
      v.apart i j a b x (of_deleted i a p) (of_deleted j b q) index index';
  of_shards = λ i a x p index. v.of_shards i a x (of_deleted i a p) index;
}
  where
    of_deleted : (i : ℕ) (a : Entry) → get i (delete n d) ≡ some a → get i d ≡ some a
    of_deleted i a p = ground (arith, get-delete n i d)
