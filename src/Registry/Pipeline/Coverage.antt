-- ===== src/Registry/Pipeline/Coverage.antt =====
-- Which layers the hops of `assemble` (maestro/shard_registry.py) cover.
use maestro_orchestrator.Prelude.{
  ℕ, zero, suc, ◌≤◌, String, ◌≡◌, ◌⊎◌, inl, inr, List, [], ◌∷◌, arith, Bool-cases, leb, leb→le,
  subst,
}
use maestro_orchestrator.Prelude.Lists.{
  length, All, Any, Any-keep, All-map, All-Any, length-keep-le, keep-All,
}
use maestro_orchestrator.Prelude.Int.{
  ℤ, pos, negsuc, leb_ℤ, ◌≤ℤ◌, ◌+ℤ◌, int_laws, leb_ℤ→≤ℤ, leb_ℤ-false,
}
use maestro_orchestrator.Prelude.Float.{Float}
use maestro_orchestrator.Registry.{Registry}
use maestro_orchestrator.Registry.Pipeline.{
  Candidate, assemble, reach, insert_sorted, sort_candidates, sorts_before, hops, shard_nodes,
}
use maestro_orchestrator.Prelude.Dict.{values}
use maestro_orchestrator.Registry.Pipeline.Rounds.{
  Picked, Picked-start, Picked-length, Picked-Any, Picked-All, pick_lem, after, left, assemble_stop,
  assemble_step,
}

-- The candidate's shard has the layer.
abbrev pub Holds : {F : Type 0} → ℤ → Candidate F → Type 0
Holds l s = (s.start ≤ℤ l) × (l ≤ℤ s.end)

module _ {F : Type 0} ⦃f : Float F⦄ where
  -- The hops leave no layer out between `cur` and where they end.
  assemble_covers :
      (n : ℕ) (cur : ℤ) (xs : List (Candidate F)) (l : ℤ)
      → cur ≤ℤ l
      → l +ℤ pos 1 ≤ℤ reach cur (assemble n cur xs)
      → Any (Holds l) (assemble n cur xs)
  unfolding assemble
  assemble_covers zero cur xs l h k = absurd (omega int_laws)
  assemble_covers (suc n) cur xs l h k = elim (pick_lem cur xs) [
    | inl (q, _) ↦ let k' = rw (assemble_stop n cur xs q) at k in absurd (omega int_laws)
    | inr (b, rest, q, p) ↦
        let k' = rw (assemble_step n cur xs q) at k in
        rw (assemble_step n cur xs q) (elim (Bool-cases (leb_ℤ l b.end)) [
          | inl e ↦ inl (let s = Picked-start p in omega int_laws, leb_ℤ→≤ℤ l b.end e)
          | inr e ↦ inr (assemble_covers n (after b) (left b rest) l (leb_ℤ-false l b.end e) k')
        ])
  ]

  -- Entries that end before the layer before `cur` are no longer there.
  abbrev pub NotPassed : ℤ → Candidate F → Type 0
  NotPassed cur s = cur ≤ℤ s.end +ℤ pos 1

  left-NotPassed :
      (b : Candidate F) (rest : List (Candidate F)) → All (NotPassed (after b)) (left b rest)
  left-NotPassed b rest =
      All-map (λ s h. let k = leb_ℤ→≤ℤ (after b) s.end h in omega int_laws) (left b rest)
        (keep-All (λ s. leb_ℤ (after b) s.end) rest)

  -- The hops never go back.
  assemble-le-reach :
      (n : ℕ) (cur : ℤ) (xs : List (Candidate F))
      → All (NotPassed cur) xs
      → cur ≤ℤ reach cur (assemble n cur xs)
  unfolding assemble
  assemble-le-reach zero cur xs h = omega int_laws
  assemble-le-reach (suc n) cur xs h = elim (pick_lem cur xs) [
    | inl (q, _) ↦ rw (assemble_stop n cur xs q) (omega int_laws)
    | inr (b, rest, q, p) ↦
        let later = assemble-le-reach n (after b) (left b rest) (left-NotPassed b rest) in
        let first = (Picked-All (NotPassed cur) p h).0 in
        rw (assemble_step n cur xs q) (omega int_laws)
  ]

  left-length :
      (n : ℕ) {cur : ℤ} {xs : List (Candidate F)} {b : Candidate F} {rest : List (Candidate F)}
      → Picked cur xs b rest
      → length xs ≤ suc n
      → length (left b rest) ≤ n
  left-length n {xs = xs} {b = b} {rest = rest} p h =
      omega (arith, Picked-length p, length-keep-le (λ s. leb_ℤ (after b) s.end) rest)

  -- What no entry left holds, no entry held, if it lies beyond the hop.
  not_held :
      {cur : ℤ} {xs : List (Candidate F)} {b : Candidate F} {rest : List (Candidate F)}
      → Picked cur xs b rest
      → (e : ℤ) → after b ≤ℤ e
      → ¬ Any (Holds e) (left b rest)
      → ¬ Any (Holds e) xs
  not_held {b = b} {rest = rest} p e beyond none_left a = elim (Picked-Any (Holds e) p a) [
    | inl held ↦ let u = held.1 in omega int_laws
    | inr r ↦ elim (Any-keep (Holds e) (λ s. leb_ℤ (after b) s.end) rest r) [
      | inl k ↦ none_left k
      | inr (s, held, short) ↦
          let u = held.1 in let w = leb_ℤ-false (after b) s.end short in omega int_laws
    ]
  ]

  -- Given a round for each entry, the loop stops at a layer that no entry holds.
  assemble_exhausts :
      (n : ℕ) (cur : ℤ) (xs : List (Candidate F))
      → length xs ≤ n
      → All (NotPassed cur) xs
      → ¬ Any (Holds (reach cur (assemble n cur xs))) xs
  unfolding assemble
  assemble_exhausts n cur [] h ok a = absurd a
  assemble_exhausts zero cur (x ∷ xs) h ok a = absurd (omega arith)
  assemble_exhausts (suc n) cur (x ∷ xs) h ok a = elim (pick_lem cur (x ∷ xs)) [
    | inl (q, late) ↦
        let (s, no_start, held) = All-Any (x ∷ xs) late (moved (assemble_stop n cur (x ∷ xs) q)) in
        let k = leb_ℤ-false s.start cur no_start in let u = held.0 in omega int_laws
    | inr (b, rest, q, p) ↦
        let kept = left-NotPassed b rest in
        not_held p (reach (after b) (assemble n (after b) (left b rest)))
          (assemble-le-reach n (after b) (left b rest) kept)
          (assemble_exhausts n (after b) (left b rest) (left-length n p h) kept)
          (moved (assemble_step n cur (x ∷ xs) q))
  ]
    where
      moved :
          {hs : List (Candidate F)}
          → assemble (suc n) cur (x ∷ xs) ≡ hs
          → Any (Holds (reach cur hs)) (x ∷ xs)
      moved q = subst (λ hs. Any (Holds (reach cur hs)) (x ∷ xs)) q a

  insert_sorted-All :
      (P : Candidate F → Type 0) (x : Candidate F) (xs : List (Candidate F))
      → P x
      → All P xs
      → All P (insert_sorted x xs)
  unfolding insert_sorted
  insert_sorted-All P x [] p h = (p, tt)
  insert_sorted-All P x (y ∷ ys) p h = elim (Bool-cases (sorts_before y x)) [
    | inl e ↦ rw e (h.0, insert_sorted-All P x ys p h.1)
    | inr e ↦ rw e (p, h)
  ]

  pub sort_candidates-All :
      (P : Candidate F → Type 0) (xs : List (Candidate F)) → All P xs → All P (sort_candidates xs)
  unfolding sort_candidates
  sort_candidates-All P [] h = tt
  sort_candidates-All P (x ∷ xs) h =
      insert_sorted-All P x (sort_candidates xs) h.0 (sort_candidates-All P xs h.1)

  insert_sorted-Any :
      (P : Candidate F → Type 0) (x : Candidate F) (xs : List (Candidate F))
      → P x ⊎ Any P xs
      → Any P (insert_sorted x xs)
  unfolding insert_sorted
  insert_sorted-Any P x [] h = h
  insert_sorted-Any P x (y ∷ ys) (inl p) = elim (Bool-cases (sorts_before y x)) [
    | inl e ↦ rw e (inr (insert_sorted-Any P x ys (inl p)))
    | inr e ↦ rw e (inl p)
  ]
  insert_sorted-Any P x (y ∷ ys) (inr (inl q)) = elim (Bool-cases (sorts_before y x)) [
    | inl e ↦ rw e (inl q)
    | inr e ↦ rw e (inr (inl q))
  ]
  insert_sorted-Any P x (y ∷ ys) (inr (inr a)) = elim (Bool-cases (sorts_before y x)) [
    | inl e ↦ rw e (inr (insert_sorted-Any P x ys (inr a)))
    | inr e ↦ rw e (inr (inr a))
  ]

  sort_candidates-Any :
      (P : Candidate F → Type 0) (xs : List (Candidate F)) → Any P xs → Any P (sort_candidates xs)
  unfolding sort_candidates
  sort_candidates-Any P [] a = a
  sort_candidates-Any P (x ∷ xs) (inl p) = insert_sorted-Any P x (sort_candidates xs) (inl p)
  sort_candidates-Any P (x ∷ xs) (inr a) =
      insert_sorted-Any P x (sort_candidates xs) (inr (sort_candidates-Any P xs a))

beyond :
    {F : Type 0} (xs : List (Candidate F)) (last : ℕ) (e : ℤ)
    → pos 0 ≤ℤ e
    → ((l : ℕ) → l ≤ last → Any (Holds (pos l)) xs)
    → ¬ Any (Holds e) xs
    → pos last +ℤ pos 1 ≤ℤ e
beyond xs last (pos e) h held gap = elim (Bool-cases (leb e last)) [
  | inl le ↦ absurd (gap (held e (leb→le e last le)))
  | inr gt ↦ leb_ℤ-false (pos e) (pos last) (ground arith)
]
beyond xs last (negsuc e) h held gap = absurd (omega arith)

module _ {F : Type 0} ⦃f : Float F⦄ (model : String) (domains : List String) (r : Registry F) where
  -- Every layer from 0 up to the end of the last hop lies in the shard range of one of the hops of
  -- the pipeline that is built.
  pub hops_cover :
      (l : ℕ)
      → pos l +ℤ pos 1 ≤ℤ reach (pos 0) (hops model domains r)
      → Any (Holds (pos l)) (hops model domains r)
  unfolding hops
  hops_cover l h =
      let sorted = sort_candidates (shard_nodes model domains (values r.nodes)) in
      assemble_covers (length sorted) (pos 0) sorted (pos l) (omega int_laws) h

  -- If no shard range of the model on a host that is up ends below layer -1, and every layer from 0
  -- to `last` lies in such a range, then the hops that are built reach beyond `last`.
  pub hops_complete :
      All (NotPassed (pos 0)) (shard_nodes model domains (values r.nodes))
      → (last : ℕ)
      → ((l : ℕ) → l ≤ last → Any (Holds (pos l)) (shard_nodes model domains (values r.nodes)))
      → pos last +ℤ pos 1 ≤ℤ reach (pos 0) (hops model domains r)
  unfolding hops
  hops_complete ok last held =
      let all = shard_nodes model domains (values r.nodes) in
      let sorted = sort_candidates all in
      let sane = sort_candidates-All (NotPassed (pos 0)) all ok in
      beyond sorted last (reach (pos 0) (assemble (length sorted) (pos 0) sorted))
        (assemble-le-reach (length sorted) (pos 0) sorted sane)
        (λ l h. sort_candidates-Any (Holds (pos l)) all (held l h))
        (assemble_exhausts (length sorted) (pos 0) sorted (omega arith) sane)
