-- ===== src/Registry/Pipeline/Rounds.antt =====
-- One round of `assemble` (maestro/shard_registry.py): the entry that is picked, and what is left.
use maestro_orchestrator.Prelude.{
  ℕ, suc, ◌≡◌, ap, refl, ◌⊎◌, inl, inr, true, false, none, some, List, [], ◌∷◌, Bool-cases,
}
use maestro_orchestrator.Prelude.Lists.{keep, length, All, Any}
use maestro_orchestrator.Prelude.Int.{ℤ, pos, leb_ℤ, ◌≤ℤ◌, ◌+ℤ◌, leb_ℤ→≤ℤ}
use maestro_orchestrator.Prelude.Float.{Float}
use maestro_orchestrator.Registry.Pipeline.{Candidate, pick, assemble, better}

-- `b` stands in the list, starts at or before `cur`, and the last list is what is left without it.
pub data Picked {F : Type 0} (cur : ℤ)
    : List (Candidate F) → Candidate F → List (Candidate F) → Type 0 where
  here :
      {x : Candidate F} {xs : List (Candidate F)}
      → leb_ℤ x.start cur ≡ true
      → Picked cur (x ∷ xs) x xs
  there :
      {x b : Candidate F} {xs rest : List (Candidate F)}
      → Picked cur xs b rest
      → Picked cur (x ∷ xs) b (x ∷ rest)

module _ {F : Type 0} {cur : ℤ} where
  pub Picked-start :
      {xs : List (Candidate F)} {b : Candidate F} {rest : List (Candidate F)}
      → Picked cur xs b rest
      → b.start ≤ℤ cur
  Picked-start (here {x} {xs} h) = leb_ℤ→≤ℤ x.start cur h
  Picked-start (there p) = Picked-start p

  pub Picked-length :
      {xs : List (Candidate F)} {b : Candidate F} {rest : List (Candidate F)}
      → Picked cur xs b rest
      → length xs ≡ suc (length rest)
  Picked-length (here h) = refl
  Picked-length (there p) = ap suc (Picked-length p)

  pub Picked-Any :
      (P : Candidate F → Type 0) {xs : List (Candidate F)} {b : Candidate F}
      {rest : List (Candidate F)}
      → Picked cur xs b rest
      → Any P xs
      → P b ⊎ Any P rest
  Picked-Any P (here h) a = a
  Picked-Any P (there p) (inl q) = inr (inl q)
  Picked-Any P (there p) (inr a) = elim (Picked-Any P p a) [ inl q ↦ inl q | inr r ↦ inr (inr r) ]

  pub Picked-All :
      (P : Candidate F → Type 0) {xs : List (Candidate F)} {b : Candidate F}
      {rest : List (Candidate F)}
      → Picked cur xs b rest
      → All P xs
      → P b × All P rest
  Picked-All P (here h) a = (a.0, a.1)
  Picked-All P (there p) a = let t = Picked-All P p a.1 in (t.0, (a.0, t.1))

module _ {F : Type 0} ⦃f : Float F⦄ where
  abbrev pub PickCases : ℤ → List (Candidate F) → Type 0
  PickCases cur xs =
      ((pick cur xs ≡ none) × All (λ s. leb_ℤ s.start cur ≡ false) xs)
      ⊎ ((b : Candidate F) × (rest : List (Candidate F)) × (pick cur xs ≡ some (b, rest))
          × Picked cur xs b rest)

  pub pick_lem : (cur : ℤ) (xs : List (Candidate F)) → PickCases cur xs
  unfolding pick
  pick_lem cur [] = inl (refl, tt)
  pick_lem cur (x ∷ xs) = elim (Bool-cases (leb_ℤ x.start cur)) [
    | inl e ↦ elim (pick_lem cur xs) [
      | inl (q, h) ↦ inr (x, xs, rw (e, q), here e)
      | inr (b, rest, q, p) ↦ elim (Bool-cases (better b x)) [
        | inl bb ↦ inr (b, x ∷ rest, rw (e, q, bb), there p)
        | inr bb ↦ inr (x, xs, rw (e, q, bb), here e)
      ]
    ]
    | inr e ↦ elim (pick_lem cur xs) [
      | inl (q, h) ↦ inl (rw (e, q), (e, h))
      | inr (b, rest, q, p) ↦ inr (b, x ∷ rest, rw (e, q), there p)
    ]
  ]

  abbrev pub after : Candidate F → ℤ
  after b = b.end +ℤ pos 1

  abbrev pub left : Candidate F → List (Candidate F) → List (Candidate F)
  left b rest = keep (λ s. leb_ℤ (after b) s.end) rest

  pub assemble_stop :
      (n : ℕ) (cur : ℤ) (xs : List (Candidate F))
      → pick cur xs ≡ none
      → assemble (suc n) cur xs ≡ []
  unfolding assemble
  assemble_stop n cur xs q = rw (q, assemble)

  pub assemble_step :
      (n : ℕ) (cur : ℤ) (xs : List (Candidate F)) {b : Candidate F} {rest : List (Candidate F)}
      → pick cur xs ≡ some (b, rest)
      → assemble (suc n) cur xs ≡ b ∷ assemble n (after b) (left b rest)
  unfolding assemble
  assemble_step n cur xs q = rw (q, assemble)
