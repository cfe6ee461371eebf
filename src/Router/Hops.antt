-- ===== src/Router/Hops.antt =====
-- The search of `d_graph` in maestro/router/distance.py against the walks of the graph.
use maestro_orchestrator.Prelude.{
  ℕ, zero, suc, ◌+◌, ◌≤◌, String, ◌≡◌, ◌⊎◌, refl, sym, ◌∙◌, subst, true, false, ◌||◌, Option, none,
  some, List, [], ◌∷◌, ◌++◌, ◌==◌, text_keys, arith, inl, inr, Bool-cases, eq_iff, leb, leb→le,
  beq_refl,
}
use maestro_orchestrator.Prelude.Lists.{contains, nonempty, Any}
use maestro_orchestrator.Router.{
  GraphEdge, other_end, unvisited, next_frontier, search_hops, hops_to,
}

abbrev In : String → List String → Type 0
In x xs = contains xs x ≡ true

in-append :
    (x : String) (xs ys : List String) → contains (xs ++ ys) x ≡ (contains xs x || contains ys x)
in-append x [] ys = refl
in-append x (y ∷ xs) ys = ground (arith, in-append x xs ys)

module _ (neighbors : String → List GraphEdge) where
  -- An edge of a node leads to another.
  abbrev pub Adjacent : String → String → Type 0
  Adjacent a b = Any (λ e. other_end a e ≡ b) (neighbors a)

  -- A walk of so many edges from one of the anchors to a node.
  pub data Walk (anchors : List String) : ℕ → String → Type 0 where
    start : {x : String} → contains anchors x ≡ true → Walk anchors 0 x
    onward : {n : ℕ} {x y : String} → Walk anchors n x → Adjacent x y → Walk anchors (suc n) y

  -- Nodes of the next frontier are neighbors that have not been visited, and the other way round.
  unvisited-In :
      (visited : List String) (a b : String) (es : List GraphEdge)
      → In b (unvisited visited a es)
      → Any (λ e. other_end a e ≡ b) es × (contains visited b ≡ false)
  unfolding unvisited
  unvisited-In visited a b [] h = absurd (cc)
  unvisited-In visited a b (e ∷ es) h = elim (Bool-cases (contains visited (other_end a e))) [
    | inl q ↦ let (later, new) = unvisited-In visited a b es (rw q at h) in (inr later, new)
    | inr q ↦ elim (Bool-cases (other_end a e == b)) [
      | inl r ↦
          let same = (eq_iff (other_end a e) b).0 r in
          (inl same, subst (λ x. contains visited x ≡ false) same q)
      | inr r ↦ let (later, new) = unvisited-In visited a b es (rw (q, r) at h) in (inr later, new)
    ]
  ]

  In-unvisited :
      (visited : List String) (a b : String) (es : List GraphEdge)
      → Any (λ e. other_end a e ≡ b) es
      → In b visited ⊎ In b (unvisited visited a es)
  unfolding unvisited
  In-unvisited visited a b [] h = absurd h
  In-unvisited visited a b (e ∷ es) h = elim (Bool-cases (contains visited (other_end a e))) [
    | inl q ↦ elim h [
      | inl same ↦ inl (subst (λ x. contains visited x ≡ true) same q)
      | inr later ↦ rw q (In-unvisited visited a b es later)
    ]
    | inr q ↦ elim h [
      | inl same ↦ rw q (inr (rw ((eq_iff (other_end a e) b).1 same) refl))
      | inr later ↦ elim (In-unvisited visited a b es later) [
        | inl old ↦ inl old
        | inr new ↦ rw q (inr (rw new (ground arith)))
      ]
    ]
  ]

  either : (x : String) (xs ys : List String) → In x (xs ++ ys) → In x xs ⊎ In x ys
  either x xs ys h = elim (Bool-cases (contains xs x)) [
    | inl q ↦ inl q
    | inr q ↦ inr (let both = sym (in-append x xs ys) ∙ h in rw q at both)
  ]

  left : (x : String) (xs ys : List String) → In x xs → In x (xs ++ ys)
  left x xs ys h = in-append x xs ys ∙ rw h refl

  right : (x : String) (xs ys : List String) → In x ys → In x (xs ++ ys)
  right x xs ys h = in-append x xs ys ∙ rw h (ground arith)

  -- A node of the next frontier lies next to one of the frontier, and is new.
  next-In :
      (visited frontier : List String) (b : String)
      → In b (next_frontier neighbors visited frontier)
      → ((a : String) × In a frontier × Adjacent a b) × (contains visited b ≡ false)
  unfolding next_frontier
  next-In visited [] b h = absurd (cc)
  next-In visited (a ∷ frontier) b h =
      elim (either b (unvisited visited a (neighbors a)) (next_frontier neighbors visited frontier)
        h) [
          | inl here ↦
              let (beside, new) = unvisited-In visited a b (neighbors a) here in
              ((a, rw (beq_refl a) refl, beside), new)
          | inr later ↦
              let ((c, on, beside), new) = next-In visited frontier b later in
              ((c, rw on (ground arith), beside), new)
        ]

  In-next :
      (visited frontier : List String) (a b : String)
      → In a frontier
      → Adjacent a b
      → In b visited ⊎ In b (next_frontier neighbors visited frontier)
  unfolding next_frontier
  In-next visited [] a b on beside = absurd (cc)
  In-next visited (c ∷ frontier) a b on beside = elim (Bool-cases (c == a)) [
    | inl q ↦
        let same = (eq_iff c a).0 q in
        let beside' : Adjacent c b = subst (λ x. Adjacent x b) (sym same) beside in
        elim (In-unvisited visited c b (neighbors c) beside') [
          | inl old ↦ inl old
          | inr new ↦ inr (
              left b (unvisited visited c (neighbors c)) (next_frontier neighbors visited frontier)
                new)
        ]
    | inr q ↦ elim (In-next visited frontier a b (rw q at on) beside) [
      | inl old ↦ inl old
      | inr new ↦ inr (
          right b (unvisited visited c (neighbors c)) (next_frontier neighbors visited frontier)
            new)
    ]
  ]

  module _ (anchors : List String) (target : String) where
    -- After so many hops: what has been visited, and what the frontier is.
    record Searched (hops : ℕ) (visited frontier : List String) : Type 0 where
      near : (n : ℕ) (x : String) → n ≤ hops → Walk anchors n x → In x visited
      edge : (x : String) → In x frontier → Walk anchors hops x
      inside : (a b : String) → In a visited → Adjacent a b → In a frontier ⊎ In b visited
      missed : contains visited target ≡ false

    reach :
        (hops : ℕ) (visited frontier : List String)
        → Searched hops visited frontier
        → (a b : String) → In a visited
        → Adjacent a b
        → In b (visited ++ next_frontier neighbors visited frontier)
    reach hops visited frontier s a b in_ beside =
        let next = next_frontier neighbors visited frontier in
        elim (s.inside a b in_ beside) [
          | inr old ↦ left b visited next old
          | inl on ↦ elim (In-next visited frontier a b on beside) [
            | inl old ↦ left b visited next old
            | inr new ↦ right b visited next new
          ]
        ]

    nearer :
        (hops : ℕ) (visited frontier : List String)
        → Searched hops visited frontier
        → {n : ℕ} {x : String} → n ≤ suc hops
        → Walk anchors n x
        → In x (visited ++ next_frontier neighbors visited frontier)
    nearer hops visited frontier s {x = x} below (start h) =
        left x visited (next_frontier neighbors visited frontier)
          (s.near 0 x (omega arith) (start h))
    nearer hops visited frontier s below (onward {n = n} {x = x} {y = y} w beside) =
        reach hops visited frontier s x y (s.near n x (omega arith) w) beside

    step :
        (hops : ℕ) (visited frontier : List String)
        → Searched hops visited frontier
        → contains (next_frontier neighbors visited frontier) target ≡ false
        → let next = next_frontier neighbors visited frontier in
          Searched (suc hops) (visited ++ next) next
    step hops visited frontier s off =
        let next = next_frontier neighbors visited frontier in
        record {
          near = λ n x below w. nearer hops visited frontier s below w;
          edge = λ x on.
              let ((a, in_, beside), _) = next-In visited frontier x on in
              onward (s.edge a in_) beside;
          inside = λ a b in_ beside. elim (either a visited next in_) [
            | inr new ↦ inl new
            | inl old ↦ inr (reach hops visited frontier s a b old beside)
          ];
          missed = in-append target visited next ∙ rw (s.missed, off) refl;
        }

    -- With nothing new to visit, every walk stays in what has been visited.
    closed :
        (hops : ℕ) (visited frontier : List String)
        → Searched hops visited frontier
        → next_frontier neighbors visited frontier ≡ []
        → {n : ℕ} {x : String} → Walk anchors n x
        → In x visited
    closed hops visited frontier s end {x = x} (start h) = s.near 0 x (omega arith) (start h)
    closed hops visited frontier s end (onward {n = n} {x = x} {y = y} w beside) =
        let before = closed hops visited frontier s end w in
        elim (either y visited (next_frontier neighbors visited frontier)
          (reach hops visited frontier s x y before beside)) [
            | inl old ↦ old
            | inr new ↦ absurd (let bad = rw end at new in cc)
          ]

    -- What a search with a limit on the hops is to find.
    abbrev pub IsDistance : ℕ → Option ℕ → Type 0
    IsDistance limit none = (n : ℕ) → n ≤ limit → Walk anchors n target → ⊥
    IsDistance limit (some hops) =
        (hops ≤ limit) × Walk anchors hops target × ((n : ℕ) → Walk anchors n target → hops ≤ n)

    nonempty-nil : (xs : List String) → nonempty xs ≡ false → xs ≡ []
    nonempty-nil [] h = refl
    nonempty-nil (x ∷ xs) h = absurd (cc)

    search_hops-IsDistance :
        (rounds hops : ℕ) (visited frontier : List String)
        → Searched hops visited frontier
        → IsDistance
            (hops + rounds)
            (search_hops neighbors target rounds (hops + 1) visited frontier)
    unfolding search_hops
    search_hops-IsDistance zero hops visited frontier s =
        λ n below w. let there = s.near n target (omega arith) w in let missed = s.missed in cc
    search_hops-IsDistance (suc rounds) hops visited frontier s =
        let next = next_frontier neighbors visited frontier in
        elim (Bool-cases (nonempty next)) [
          | inr q ↦
              rw (q, search_hops)
                (λ n below w.
                  let there = closed hops visited frontier s (nonempty-nil next q) w in
                  let missed = s.missed in cc)
          | inl q ↦ elim (Bool-cases (contains next target)) [
            | inl r ↦
                let ((a, in_, beside), new) = next-In visited frontier target r in
                let one_more : suc hops ≡ hops + 1 = omega arith in
                rw (q, r, search_hops)
                  (
                    omega arith,
                    subst (λ k. Walk anchors k target) one_more (onward (s.edge a in_) beside),
                    λ n w. elim (Bool-cases (leb n hops)) [
                      | inl below ↦
                          let there = s.near n target (leb→le n hops below) w in
                          let missed = s.missed in absurd (cc)
                      | inr above ↦ ground arith
                    ],
                  )
            | inr r ↦
                let later =
                  search_hops-IsDistance rounds (suc hops) (visited ++ next) next
                    (step hops visited frontier s r) in
                let one_more : suc hops ≡ hops + 1 = omega arith in
                let limit : hops + 1 + rounds ≡ hops + suc rounds = omega arith in
                rw (q, r, search_hops)
                  (subst
                    (λ k.
                      IsDistance k
                        (search_hops neighbors target rounds (hops + 1 + 1) (visited ++ next) next))
                    limit
                    (subst
                      (λ k.
                        IsDistance (k + rounds)
                          (search_hops neighbors target rounds (k + 1) (visited ++ next) next))
                      one_more later))
          ]
        ]

    no_walk : nonempty anchors ≡ false → {n : ℕ} {x : String} → Walk anchors n x → ⊥
    no_walk none_ {x = x} (start h) =
        let empty = nonempty-nil anchors none_ in let bad = rw empty at h in cc
    no_walk none_ (onward w beside) = no_walk none_ w

    at_start : {n : ℕ} {x : String} → n ≤ 0 → Walk anchors n x → In x anchors
    at_start below (start h) = h
    at_start below (onward w beside) = absurd (omega arith)

    -- The search finds the target exactly when a walk from an anchor reaches it with no more edges than
    -- the limit, and then the number of edges of a shortest walk.
    pub hops_to_shortest :
        (max_hops : ℕ) → IsDistance max_hops (hops_to neighbors anchors max_hops target)
    unfolding hops_to
    hops_to_shortest max_hops = elim (Bool-cases (nonempty anchors)) [
      | inr q ↦ rw (q, hops_to) (λ n below w. no_walk q w)
      | inl q ↦ elim (Bool-cases (contains anchors target)) [
        | inl r ↦ rw (q, r, hops_to) (omega arith, start r, λ n w. omega arith)
        | inr r ↦
            let start_at_zero : 0 + max_hops ≡ max_hops = omega arith in
            rw (q, r, hops_to)
              (subst (λ k. IsDistance k (search_hops neighbors target max_hops 1 anchors anchors))
                start_at_zero
                (search_hops-IsDistance max_hops 0 anchors anchors (record {
                  near = λ n x below w. at_start below w;
                  edge = λ x on. start on;
                  inside = λ a b on beside. inl on;
                  missed = r;
                })))
      ]
    ]
