-- ===== src/Prelude/Sorted.antt =====
-- Sets of numbers as sorted lists without repetitions, as `sorted(set(...))` gives them.
use Prim.Native.Nat.{ℕ, ◌<◌}
use mathlib.Core.Path.{◌≡◌, refl}
use mathlib.Core.Bool.{◌||◌}
use mathlib.Core.Logic.{inl, inr}
use mathlib.Core.List.{List, [], ◌∷◌}
use native.Mathlib.Omega.{arith}
use maestro_orchestrator.Prelude.Tests.{ltb, nat_beq, if◌then◌else◌, number_keys, Bool-cases}
use maestro_orchestrator.Prelude.Lists.{contains, All, All-map}

-- A sorted list of numbers without repetitions, for a set.
unfoldable pub insert_number : ℕ → List ℕ → List ℕ
insert_number n [] = n ∷ []
insert_number n (m ∷ ms) =
    let rest = insert_number n ms in
    if nat_beq n m then m ∷ ms else if ltb n m then n ∷ m ∷ ms else m ∷ rest

unfoldable pub sorted_union : List ℕ → List ℕ → List ℕ
unfolding insert_number
sorted_union [] ms = ms
sorted_union (n ∷ ns) ms = insert_number n (sorted_union ns ms)

-- Every number is above the one before it.
abbrev pub IsIncreasing : List ℕ → Type 0
IsIncreasing [] = Unit
IsIncreasing (n ∷ ns) = All (λ m. n < m) ns × IsIncreasing ns

pub contains-insert_number :
    (n m : ℕ) (ns : List ℕ) → contains (insert_number n ns) m ≡ (nat_beq n m || contains ns m)
unfolding insert_number
contains-insert_number n m [] = refl
contains-insert_number n m (k ∷ ns) = ground (arith, contains-insert_number n m ns)

All-insert_number :
    (k n : ℕ) (ns : List ℕ) → k < n → All (λ m. k < m) ns → All (λ m. k < m) (insert_number n ns)
unfolding insert_number
All-insert_number k n [] below h = (below, tt)
All-insert_number k n (m ∷ ns) below h = elim (Bool-cases (nat_beq n m)) [
  | inl q ↦ rw q h
  | inr q ↦ elim (Bool-cases (ltb n m)) [
    | inl r ↦ rw (q, r) (below, h)
    | inr r ↦ rw (q, r) (h.0, All-insert_number k n ns below h.1)
  ]
]

pub insert_number-IsIncreasing :
    (n : ℕ) (ns : List ℕ) → IsIncreasing ns → IsIncreasing (insert_number n ns)
unfolding insert_number
insert_number-IsIncreasing n [] h = (tt, tt)
insert_number-IsIncreasing n (m ∷ ns) h = elim (Bool-cases (nat_beq n m)) [
  | inl q ↦ rw q h
  | inr q ↦ elim (Bool-cases (ltb n m)) [
    | inl r ↦
        let below : n < m = ground arith in
        rw (q, r)
          ((below, All-map {P = λ k. m < k} {Q = λ k. n < k} (λ k l. omega arith) ns h.0), h)
    | inr r ↦
        let above : m < n = ground arith in
        rw (q, r) (All-insert_number m n ns above h.0, insert_number-IsIncreasing n ns h.1)
  ]
]
