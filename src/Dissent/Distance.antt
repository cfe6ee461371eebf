-- ===== src/Dissent/Distance.antt =====
-- The distance of two texts in maestro/dissent.py.
use maestro_orchestrator.Prelude.{
  ℕ, ◌+◌, ◌-◌, String, ◌≡◌, refl, ap, sym, ◌∙◌, Bool, false, not, ◌&&◌, List, [], ◌∷◌, ◌==◌,
  text_keys, arith, if◌then◌else◌, none, inl, inr, Bool-cases, eq_iff, beq_sym,
}
use maestro_orchestrator.Prelude.Lists.{length, contains, nonempty}
use maestro_orchestrator.Prelude.Float.{Float}
use maestro_orchestrator.Dissent.{word_set, common, word_distance, semantic_distance}

-- No word comes twice.
abbrev pub IsWordSet : List String → Type 0
IsWordSet [] = Unit
IsWordSet (x ∷ xs) = (contains xs x ≡ false) × IsWordSet xs

word_set-IsWordSet : (xs : List String) → IsWordSet (word_set xs)
unfolding word_set
word_set-IsWordSet [] = tt
word_set-IsWordSet (x ∷ xs) = elim (Bool-cases (contains (word_set xs) x)) [
  | inl e ↦ rw e (word_set-IsWordSet xs)
  | inr e ↦ rw e (e, word_set-IsWordSet xs)
]

abbrev one_if_in : List String → String → ℕ
one_if_in xs x = if contains xs x then 1 else 0

common-cons : (x : String) (a b : List String) → common (x ∷ a) b ≡ one_if_in b x + common a b
unfolding common
common-cons x a b = ground arith

common_none : (a : List String) → common a [] ≡ 0
unfolding common
common_none [] = refl
common_none (x ∷ a) = common_none a

common_nil : (b : List String) → common [] b ≡ 0
unfolding common
common_nil b = refl

-- One more word on the right counts if it is on the left.
common_right :
    (y : String) (a b : List String)
    → IsWordSet a
    → contains b y ≡ false
    → common a (y ∷ b) ≡ one_if_in a y + common a b
common_right y [] b u fresh = common_nil (y ∷ b) ∙ ap (λ n. 0 + n) (sym (common_nil b))
common_right y (x ∷ a) b u fresh = common-cons x a (y ∷ b) ∙ (elim (Bool-cases (x == y)) [
  | inl e ↦
      let same = (eq_iff x y).0 e in
      let flipped = sym (beq_sym x y) ∙ e in
      let not_right : contains b x ≡ false = ap (contains b) same ∙ fresh in
      let not_left : contains a y ≡ false = ap (contains a) (sym same) ∙ u.0 in
      ground (arith, flipped, not_right, not_left, common_right y a b u.1 fresh, common-cons x a b)
  | inr e ↦
      let flipped = sym (beq_sym x y) ∙ e in
      ground (arith, flipped, common_right y a b u.1 fresh, common-cons x a b)
])

common_comm : (a b : List String) → IsWordSet a → IsWordSet b → common a b ≡ common b a
common_comm a [] u v = common_none a ∙ sym (common_nil a)
common_comm a (y ∷ b) u v =
    common_right y a b u v.0
    ∙ ap (λ n. one_if_in a y + n) (common_comm a b u v.1)
    ∙ sym (common-cons y b a)

module _ {F : Type 0} ⦃f : Float F⦄ where
  -- The distance from whether there are no words, the number of common words, and the number of words.
  abbrev by_counts : Bool → ℕ → ℕ → F
  by_counts empty both total =
      if empty
      then f.lit 0 0
      else f.round4 (f.sub (f.lit 1 0) (f.div (f.lit both 0) (f.lit (total - both) 0)))

  word_distance_comm :
      (a b : List String) → common a b ≡ common b a → word_distance {F = F} a b ≡ word_distance b a
  unfolding word_distance
  word_distance_comm a b same =
      let total : length a + length b ≡ length b + length a = omega arith in
      let both_empty : (not (nonempty a) && not (nonempty b))
          ≡ (not (nonempty b) && not (nonempty a)) =
        ground arith in
      ap (λ e. by_counts e (common a b) (length a + length b)) both_empty
      ∙ ap (λ n. by_counts (not (nonempty b) && not (nonempty a)) n (length a + length b)) same
      ∙ ap (λ t. by_counts (not (nonempty b) && not (nonempty a)) (common b a) t) total

  -- Without an embedding model the distance of two texts does not depend on their order.
  pub semantic_distance_comm :
      (words : String → List String) (a b : String)
      → semantic_distance {F = F} none words a b ≡ semantic_distance none words b a
  unfolding semantic_distance
  semantic_distance_comm words a b = word_distance_comm (word_set (words a)) (word_set (words b)) (
      common_comm (word_set (words a)) (word_set (words b)) (word_set-IsWordSet (words a))
        (word_set-IsWordSet (words b)))
