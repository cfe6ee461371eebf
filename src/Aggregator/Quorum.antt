-- ===== src/Aggregator/Quorum.antt =====
-- The level of agreement and the quorum of maestro/aggregator.py.
use maestro_orchestrator.Prelude.{
  ℕ, ◌+◌, ◌≤◌, String, ◌≡◌, refl, ap, true, false, not, some, List, [], ◌∷◌, arith, ◌==◌,
  Bool-cases, inl, inr, text_keys, ltb, subst, sym,
}
use maestro_orchestrator.Prelude.Lists.{length, All, keep, All-map}
use maestro_orchestrator.Prelude.Float.{Float}
use maestro_orchestrator.Aggregator.{
  count, first_of_most, Agreement, agreement_by_matching, confidence_of, ratio,
}

ltb→le : (a b : ℕ) → ltb a b ≡ true → a ≤ b
ltb→le a b h = ground arith

ltb-false : (a b : ℕ) → ltb a b ≡ false → b ≤ a
ltb-false a b h = ground arith

later_is_more :
    (whole : List String) (x y : String) (ys : List String)
    → ltb (count x whole) (first_of_most whole y ys).1 ≡ true
    → first_of_most whole x (y ∷ ys) ≡ first_of_most whole y ys
unfolding first_of_most
later_is_more whole x y ys e = rw (e, first_of_most)

later_is_not_more :
    (whole : List String) (x y : String) (ys : List String)
    → ltb (count x whole) (first_of_most whole y ys).1 ≡ false
    → first_of_most whole x (y ∷ ys) ≡ (x, count x whole)
unfolding first_of_most
later_is_not_more whole x y ys e = rw (e, first_of_most)

abbrev IsMost : List String → List String → String × ℕ → Type 0
IsMost whole xs p = (p.1 ≡ count p.0 whole) × All (λ z. count z whole ≤ p.1) xs

first_of_most_lem :
    (whole : List String) (x : String) (xs : List String)
    → IsMost whole (x ∷ xs) (first_of_most whole x xs)
unfolding first_of_most
first_of_most_lem whole x [] = (refl, (omega arith, tt))
first_of_most_lem whole x (y ∷ ys) =
    let p = first_of_most whole y ys in
    let (eq, h) = first_of_most_lem whole y ys in
    elim (Bool-cases (ltb (count x whole) p.1)) [
      | inl e ↦
          subst (IsMost whole (x ∷ y ∷ ys)) (sym (later_is_more whole x y ys e))
            (eq, (ltb→le (count x whole) p.1 e, h))
      | inr e ↦ subst (IsMost whole (x ∷ y ∷ ys)) (sym (later_is_not_more whole x y ys e)) (
        refl,
        (omega arith, All-map (λ z k. omega (arith, ltb-false (count x whole) p.1 e)) (y ∷ ys) h),
      )
    ]

partition_count :
    (m : String) (xs : List String) → count m xs + length (keep (λ x. not (x == m)) xs) ≡ length xs
partition_count m [] = refl
partition_count m (x ∷ xs) = ground (arith, partition_count m xs)

-- Without distances, on any responses but none, the agreement is that of a response `m` that is
-- given at least as often as each of the responses: the ratio is that of the number of times to the
-- number of responses, and the dissenting responses are as many as the times that `m` is not given.
pub agreement_by_matching_most :
    {F : Type 0} ⦃f : Float F⦄ (r : String) (rs : List String)
    → (m : String) × (a : Agreement F) × (agreement_by_matching (r ∷ rs) ≡ some a)
      × (a.majority_view ≡ some m)
      × All (λ x. count x (r ∷ rs) ≤ count m (r ∷ rs)) (r ∷ rs)
      × (a.agreement_ratio ≡ ratio (count m (r ∷ rs)) (length (r ∷ rs)))
      × (count m (r ∷ rs) + length a.minority_views ≡ length (r ∷ rs))
unfolding agreement_by_matching
agreement_by_matching_most {F} r rs =
    let p = first_of_most (r ∷ rs) r rs in
    let (eq, h) = first_of_most_lem (r ∷ rs) r rs in
    (
      p.0,
      record {
        confidence = confidence_of {F = F} (ratio p.1 (length (r ∷ rs)));
        agreement_ratio = ratio p.1 (length (r ∷ rs));
        majority_view = some p.0;
        minority_views = keep (λ x. not (x == p.0)) (r ∷ rs);
      },
      refl,
      refl,
      subst (λ n. All (λ x. count x (r ∷ rs) ≤ n) (r ∷ rs)) eq h,
      ap (λ n. ratio {F = F} n (length (r ∷ rs))) eq,
      partition_count p.0 (r ∷ rs),
    )
