-- ===== src/Dissent/Outliers.antt =====
-- What the report of `analyze` (maestro/dissent.py) says of the agents.
use maestro_orchestrator.Prelude.{suc, ap, ◌+◌, ◌*◌, String, ◌≡◌, refl, List, [], ◌∷◌, map, arith}
use maestro_orchestrator.Prelude.Lists.{length, length-append}
use maestro_orchestrator.Prelude.Dict.{Dict}
use maestro_orchestrator.Prelude.Float.{Float}
use maestro_orchestrator.Dissent.{pairs, analyze, pairwise_of}

length-map {ℓ κ} :
    {A : Type ℓ} {B : Type κ} (f : A → B) (xs : List A) → length (map f xs) ≡ length xs
length-map f [] = refl
length-map f (x ∷ xs) = ap suc (length-map f xs)

pairs_square {ℓ} :
    {A : Type ℓ} (xs : List A)
    → length (pairs xs) + length (pairs xs) + length xs ≡ length xs * length xs
unfolding pairs
pairs_square {A} [] = refl
pairs_square {A} (x ∷ xs) = grind (
  arith,
  pairs_square xs,
  length-append (map (λ y. (x, y)) xs) (pairs xs),
  length-map {B = A × A} (λ y. (x, y)) xs,
)

module _ {F : Type 0} ⦃f : Float F⦄ (distance : String → String → F) (prompt : String)
    (responses : Dict String String) where
  -- The report compares every two responses once: n responses give n * (n - 1) / 2 pairs.
  pub analyze_pairs :
      let n = length responses in
      let p = length (analyze distance prompt responses).pairwise in p + p + n ≡ n * n
  unfolding analyze pairwise_of
  analyze_pairs = rw length-map (pairs_square responses)
