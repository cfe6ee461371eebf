-- ===== src/Shards/Layers.antt =====
-- The ranges of layers of maestro/shard_manager.py against the layers that they are made of.
use maestro_orchestrator.Prelude.{
  ℕ, zero, suc, ◌+◌, ◌-◌, ◌≤◌, ◌<◌, ◌≡◌, refl, ap, sym, String, ◌∙◌, Bool, true, false, ◌&&◌, ◌||◌,
  Option, none, some, List, [], ◌∷◌, ltb, leb, nat_beq, number_keys, arith, inl, inr, Bool-cases,
}
use maestro_orchestrator.Prelude.Sorted.{
  insert_number, IsIncreasing, contains-insert_number, insert_number-IsIncreasing,
}
use maestro_orchestrator.Prelude.Lists.{any, contains, All}
use maestro_orchestrator.Shards.{
  ShardFile, ShardFileEntry, readable_entries, manifest_of, add_layers, add_range, all_layers,
  ranges_from, ranges_of, total_of, is_complete,
}

-- A layer in one of some ranges.
abbrev pub in_range : ℕ → ℕ × ℕ → Bool
in_range x r = leb r.0 x && leb x r.1

abbrev pub in_ranges : ℕ → List (ℕ × ℕ) → Bool
in_ranges x = any (in_range x)

contains-add_layers :
    (start count x : ℕ) (layers : List ℕ)
    → contains (add_layers start count layers) x
      ≡ ((leb start x && ltb x (start + count)) || contains layers x)
unfolding add_layers
contains-add_layers start zero x layers = ground arith
contains-add_layers start (suc count) x layers = ground (
  arith,
  contains-add_layers (start + 1) count x (insert_number start layers),
  contains-insert_number start x layers,
)

add_layers-IsIncreasing :
    (start count : ℕ) (layers : List ℕ)
    → IsIncreasing layers
    → IsIncreasing (add_layers start count layers)
unfolding add_layers
add_layers-IsIncreasing start zero layers h = h
add_layers-IsIncreasing start (suc count) layers h =
    add_layers-IsIncreasing (start + 1) count (insert_number start layers)
      (insert_number-IsIncreasing start layers h)

pub in_ranges-ranges_from :
    (start prev x : ℕ) (layers : List ℕ)
    → start ≤ prev
    → All (λ m. prev < m) layers
    → IsIncreasing layers
    → in_ranges x (ranges_from start prev layers) ≡ (in_range x (start, prev) || contains layers x)
unfolding ranges_from
in_ranges-ranges_from start prev x [] below above h = refl
in_ranges-ranges_from start prev x (layer ∷ layers) below above h =
    elim (Bool-cases (nat_beq layer (prev + 1))) [
      | inl q ↦
          let next : layer ≡ prev + 1 = ground arith in
          let rest = in_ranges-ranges_from start layer x layers (omega arith) h.0 h.1 in
          rw (q, ranges_from) ground arith
      | inr q ↦
          let rest = in_ranges-ranges_from layer layer x layers (omega arith) h.0 h.1 in
          rw (q, ranges_from) ground arith
    ]

add_range-IsIncreasing :
    (r : Option (ℕ × ℕ)) (layers : List ℕ) → IsIncreasing layers → IsIncreasing (add_range r layers)
unfolding add_range
add_range-IsIncreasing none layers h = h
add_range-IsIncreasing (some (start, end)) layers h =
    add_layers-IsIncreasing start (end + 1 - start) layers h

pub all_layers-IsIncreasing : (es : List ShardFileEntry) → IsIncreasing (all_layers es)
unfolding all_layers
all_layers-IsIncreasing [] = tt
all_layers-IsIncreasing (e ∷ es) =
    add_range-IsIncreasing e.descriptor.layer_range (all_layers es) (all_layers-IsIncreasing es)

-- A layer in the range of a file.
abbrev pub holds_layer : ℕ → ShardFileEntry → Bool
holds_layer x e = elim e.descriptor.layer_range [ none ↦ false | some r ↦ in_range x r ]

contains-add_range :
    (r : Option (ℕ × ℕ)) (x : ℕ) (layers : List ℕ)
    → contains (add_range r layers) x
      ≡ ((elim r [ none ↦ false | some r' ↦ in_range x r' ]) || contains layers x)
unfolding add_range
contains-add_range none x layers = refl
contains-add_range (some (start, end)) x layers =
    let added = contains-add_layers start (end + 1 - start) x layers in ground arith

contains-all_layers :
    (x : ℕ) (es : List ShardFileEntry) → contains (all_layers es) x ≡ any (holds_layer x) es
unfolding all_layers
contains-all_layers x [] = refl
contains-all_layers x (e ∷ es) =
    contains-add_range e.descriptor.layer_range x (all_layers es)
    ∙ ap (λ b. (elim e.descriptor.layer_range [ none ↦ false | some r ↦ in_range x r ]) || b)
        (contains-all_layers x es)

in_ranges-ranges_of :
    (x : ℕ) (layers : List ℕ)
    → IsIncreasing layers
    → in_ranges x (ranges_of layers) ≡ contains layers x
unfolding ranges_of
in_ranges-ranges_of x [] h = refl
in_ranges-ranges_of x (layer ∷ layers) h =
    let rest = in_ranges-ranges_from layer layer x layers (omega arith) h.0 h.1 in ground arith

-- The ranges of the manifest cover the layers that some readable file holds, and no other.
pub coverage_lem :
    (model : String) (files : List ShardFile) (x : ℕ)
    → in_ranges x (manifest_of model files).layer_coverage
      ≡ any (holds_layer x) (readable_entries files)
unfolding manifest_of
coverage_lem model files x =
    let es = readable_entries files in
    in_ranges-ranges_of x (all_layers es) (all_layers-IsIncreasing es) ∙ contains-all_layers x es

two_ranges :
    (r : ℕ × ℕ) (start prev : ℕ) (layers : List ℕ)
    → is_complete (r ∷ ranges_from start prev layers) ≡ false
unfolding is_complete ranges_from
two_ranges r start prev [] = refl
two_ranges r start prev (layer ∷ layers) =
    let rest = two_ranges r start layer layers in
    elim (Bool-cases (nat_beq layer (prev + 1))) [
      | inl q ↦ rw (q, ranges_from) rest
      | inr q ↦ rw (q, ranges_from) refl
    ]

one_range :
    (start prev x : ℕ) (layers : List ℕ)
    → is_complete (ranges_from start prev layers) ≡ true
    → in_ranges x (ranges_from start prev layers) ≡ ltb x (total_of (prev ∷ layers))
unfolding is_complete ranges_from total_of
one_range start prev x [] whole = ground arith
one_range start prev x (layer ∷ layers) whole =
    let rest = one_range start layer x layers in
    elim (Bool-cases (nat_beq layer (prev + 1))) [
      | inl q ↦
          let whole' : is_complete (ranges_from start layer layers) ≡ true =
            rw (q, ranges_from) at whole in
          rw (q, ranges_from) (rest whole')
      | inr q ↦
          let split : is_complete ((start, prev) ∷ ranges_from layer layer layers) ≡ true =
            rw (q, ranges_from) at whole in
          let not_whole = two_ranges (start, prev) layer layer layers in
          absurd (let bad : false ≡ true = sym not_whole ∙ split in cc)
    ]

whole_ranges :
    (x : ℕ) (layers : List ℕ)
    → is_complete (ranges_of layers) ≡ true
    → in_ranges x (ranges_of layers) ≡ ltb x (total_of layers)
unfolding is_complete ranges_of total_of
whole_ranges x [] whole = cc
whole_ranges x (layer ∷ layers) whole = one_range layer layer x layers whole

-- If the manifest is complete, a layer is held by some readable file exactly if it is below the number of
-- layers.
pub complete_lem :
    (model : String) (files : List ShardFile) (x : ℕ)
    → (manifest_of model files).complete ≡ true
    → any (holds_layer x) (readable_entries files) ≡ ltb x (manifest_of model files).total_layers
unfolding manifest_of
complete_lem model files x whole =
    let es = readable_entries files in
    sym (
      in_ranges-ranges_of x (all_layers es) (all_layers-IsIncreasing es) ∙ contains-all_layers x es)
    ∙ whole_ranges x (all_layers es) whole
