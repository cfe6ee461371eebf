-- ===== src/Aggregator/Clusters.antt =====
-- The loops of maestro/aggregator.py that grow clusters: nobody is lost or counted twice, and the loops end by
-- their tests.
use maestro_orchestrator.Prelude.{
  ℕ, zero, suc, ◌+◌, ◌≤◌, ◌<◌, String, ◌≡◌, refl, ap, Bool, true, false, List, [], ◌∷◌, ◌++◌, arith,
  if◌then◌else◌, ◌==◌, Bool-cases, inl, inr, text_keys, beq_refl, eq_iff, ◌∙◌, subst,
}
use maestro_orchestrator.Prelude.Lists.{length, All, count_if-append}
use maestro_orchestrator.Aggregator.{remove, scan, grow, all_clusters, flat, count}

-- 1 where the item is `a`.
abbrev one_if : String → String → ℕ
one_if x a = if x == a then 1 else 0

count_tail :
    (x b : String) (xs : List String) → (x == b) ≡ false → 1 ≤ count b (x ∷ xs) → 1 ≤ count b xs
count_tail x b xs e h = ground arith

count-remove :
    (a b : String) (xs : List String)
    → 1 ≤ count b xs
    → count a (remove b xs) + one_if b a ≡ count a xs
unfolding remove
count-remove a b [] h = absurd (omega arith)
count-remove a b (x ∷ xs) h = elim (Bool-cases (x == b)) [
  | inl e ↦ let same = (eq_iff x b).0 e in rw (e, same) (omega arith)
  | inr e ↦ let ih = count-remove a b xs (count_tail x b xs e h) in rw e (omega arith)
]

length-remove :
    (b : String) (xs : List String) → 1 ≤ count b xs → suc (length (remove b xs)) ≡ length xs
unfolding remove
length-remove b [] h = absurd (omega arith)
length-remove b (x ∷ xs) h = elim (Bool-cases (x == b)) [
  | inl e ↦ rw e refl
  | inr e ↦ rw e (ap suc (length-remove b xs (count_tail x b xs e h)))
]

count_head : (a : String) (xs : List String) → 1 ≤ count a (a ∷ xs)
count_head a xs = rw (beq_refl a) (omega arith)

module _ (close : List String → String → Bool) where
  -- The agents that the loop has yet to see are among the remaining ones.
  abbrev Within : List String → List String → Type 0
  Within snap r = (a : String) → count a snap ≤ count a r

  Within-remove :
      (x : String) (rest r : List String) → Within (x ∷ rest) r → Within rest (remove x r)
  Within-remove x rest r h a =
      let there : 1 ≤ count x r = omega (arith, count_head x rest, h x) in
      omega (arith, h a, count-remove a x r there)

  scan_join :
      (x : String) (rest c r : List String) (ch : Bool)
      → close c x ≡ true
      → scan close (x ∷ rest) c r ch ≡ scan close rest (c ++ x ∷ []) (remove x r) true
  unfolding scan
  scan_join x rest c r ch e = rw (e, scan)

  scan_pass :
      (x : String) (rest c r : List String) (ch : Bool)
      → close c x ≡ false
      → scan close (x ∷ rest) c r ch ≡ scan close rest c r ch
  unfolding scan
  scan_pass x rest c r ch e = rw (e, scan)

  scan_counts :
      (snap c r : List String) (ch : Bool)
      → Within snap r
      → (a : String)
      → let t = scan close snap c r ch in count a t.0 + count a t.1 ≡ count a c + count a r
  unfolding scan
  scan_counts [] c r ch h a = refl
  scan_counts (x ∷ rest) c r ch h a = elim (Bool-cases (close c x)) [
    | inl e ↦ rw (scan_join x rest c r ch e) (
        let ih = scan_counts rest (c ++ x ∷ []) (remove x r) true (Within-remove x rest r h) a in
        let there : 1 ≤ count x r = omega (arith, count_head x rest, h x) in
        omega (arith, ih, count-remove a x r there, count_if-append (λ y. y == a) c (x ∷ [])))
    | inr e ↦ rw (scan_pass x rest c r ch e) (scan_counts rest c r ch (λ b. omega (arith, h b)) a)
  ]

  -- What has changed stays changed.
  scan-true : (snap c r : List String) → (scan close snap c r true).2 ≡ true
  unfolding scan
  scan-true [] c r = refl
  scan-true (x ∷ rest) c r = elim (Bool-cases (close c x)) [
    | inl e ↦ rw (scan_join x rest c r true e) (scan-true rest (c ++ x ∷ []) (remove x r))
    | inr e ↦ rw (scan_pass x rest c r true e) (scan-true rest c r)
  ]

  abbrev SecondFalse : List String × List String × Bool → Type 0
  SecondFalse t = t.2 ≡ false

  -- A round that reports no change has made none, and found no agent close to the cluster.
  scan_unchanged :
      (snap c r : List String)
      → (scan close snap c r false).2 ≡ false
      → (scan close snap c r false ≡ (c, r, false)) × All (λ a. close c a ≡ false) snap
  unfolding scan
  scan_unchanged [] c r q = (refl, tt)
  scan_unchanged (x ∷ rest) c r q = elim (Bool-cases (close c x)) [
    | inl e ↦
        let q' = subst SecondFalse (scan_join x rest c r false e) q in
        let on = scan-true rest (c ++ x ∷ []) (remove x r) in absurd (cc)
    | inr e ↦
        let p = scan_pass x rest c r false e in
        let ih = scan_unchanged rest c r (subst SecondFalse p q) in (p ∙ ih.0, (e, ih.1))
  ]

  -- A round takes no agent back, and one that reports a change has taken one out.
  length-scan :
      (snap c r : List String) (ch : Bool)
      → Within snap r
      → length (scan close snap c r ch).1 ≤ length r
  unfolding scan
  length-scan [] c r ch h = omega arith
  length-scan (x ∷ rest) c r ch h = elim (Bool-cases (close c x)) [
    | inl e ↦ rw (scan_join x rest c r ch e) (
        let there : 1 ≤ count x r = omega (arith, count_head x rest, h x) in
        omega (
          arith,
          length-scan rest (c ++ x ∷ []) (remove x r) true (Within-remove x rest r h),
          length-remove x r there,
        ))
    | inr e ↦ rw (scan_pass x rest c r ch e) (length-scan rest c r ch (λ b. omega (arith, h b)))
  ]

  scan_shrinks :
      (snap c r : List String)
      → Within snap r
      → (scan close snap c r false).2 ≡ true
      → length (scan close snap c r false).1 < length r
  unfolding scan
  scan_shrinks [] c r h q = cc
  scan_shrinks (x ∷ rest) c r h q = elim (Bool-cases (close c x)) [
    | inl e ↦ rw (scan_join x rest c r false e) (
        let there : 1 ≤ count x r = omega (arith, count_head x rest, h x) in
        omega (
          arith,
          length-scan rest (c ++ x ∷ []) (remove x r) true (Within-remove x rest r h),
          length-remove x r there,
        ))
    | inr e ↦
        let p = scan_pass x rest c r false e in
        rw p (scan_shrinks rest c r (λ b. omega (arith, h b)) (subst (λ t. t.2 ≡ true) p q))
  ]

  Within-refl : (r : List String) → Within r r
  Within-refl r a = omega arith

  abbrev round : List String → List String → List String × List String × Bool
  round c r = scan close r c r false

  grow_more :
      (n : ℕ) (c r : List String)
      → (round c r).2 ≡ true
      → grow close (suc n) c r ≡ grow close n (round c r).0 (round c r).1
  unfolding grow
  grow_more n c r e = rw (e, grow)

  grow_done : (n : ℕ) (c r : List String) → (round c r).2 ≡ false → grow close (suc n) c r ≡ (c, r)
  unfolding grow
  grow_done n c r e = let same = (scan_unchanged r c r e).0 in rw (e, grow) (rw same)

  grow_counts :
      (n : ℕ) (c r : List String) (a : String)
      → count a (grow close n c r).0 + count a (grow close n c r).1 ≡ count a c + count a r
  unfolding grow
  grow_counts zero c r a = refl
  grow_counts (suc n) c r a = elim (Bool-cases (round c r).2) [
    | inl e ↦
        rw (grow_more n c r e)
          (grow_counts n (round c r).0 (round c r).1 a ∙ scan_counts r c r false (Within-refl r) a)
    | inr e ↦ rw (grow_done n c r e)
  ]

  length-grow : (n : ℕ) (c r : List String) → length (grow close n c r).1 ≤ length r
  unfolding grow
  length-grow zero c r = omega arith
  length-grow (suc n) c r = elim (Bool-cases (round c r).2) [
    | inl e ↦ rw (grow_more n c r e) (
        omega (
          arith,
          length-grow n (round c r).0 (round c r).1,
          length-scan r c r false (Within-refl r),
        ))
    | inr e ↦ rw (grow_done n c r e) (omega arith)
  ]

  -- With a round more than there are agents left over, `while changed` ends by its test: no agent
  -- that is left over is close to the cluster.
  pub grow_closed :
      (n : ℕ) (c r : List String)
      → length r < n
      → All (λ a. close (grow close n c r).0 a ≡ false) (grow close n c r).1
  unfolding grow
  grow_closed zero c r h = absurd (omega arith)
  grow_closed (suc n) c r h = elim (Bool-cases (round c r).2) [
    | inl e ↦ rw (grow_more n c r e) (
        grow_closed n (round c r).0 (round c r).1
          (omega (arith, scan_shrinks r c r (Within-refl r) e)))
    | inr e ↦ rw (grow_done n c r e) (scan_unchanged r c r e).1
  ]

  pub all_clusters_counts :
      (n : ℕ) (r : List String) (a : String)
      → length r ≤ n
      → count a (flat (all_clusters close n r)) ≡ count a r
  unfolding all_clusters
  all_clusters_counts zero [] a h = refl
  all_clusters_counts zero (x ∷ r) a h = absurd (omega arith)
  all_clusters_counts (suc n) [] a h = refl
  all_clusters_counts (suc n) (x ∷ r) a h =
      let g = grow close (suc (length r)) (x ∷ []) r in
      let later =
        all_clusters_counts n g.1 a (omega (arith, length-grow (suc (length r)) (x ∷ []) r)) in
      omega (
        arith,
        later,
        grow_counts (suc (length r)) (x ∷ []) r a,
        count_if-append (λ y. y == a) g.0 (flat (all_clusters close n g.1)),
      )
