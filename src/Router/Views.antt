-- ===== src/Router/Views.antt =====
-- The cache of `CompositeGraphView` in maestro/router/graph.py, and its slugs.
use Prim.Native.Char.{Char}
use Prim.Native.String.{[] as text_end, ◌∷◌ as ◌∷ₜ◌, ◌++◌ as join_text}
use Prim.Native.String.append
use maestro_orchestrator.Prelude.{
  String, ◌≡◌, refl, ap, ◌∙◌, Option, none, some, List, [], ◌∷◌, text_keys,
}
use maestro_orchestrator.Prelude.Dict.{Dict, get}
use maestro_orchestrator.Router.{GraphEdge}
use maestro_orchestrator.Router.Graph.{
  LibraryView, WhirlpoolView, Item, View, materialize_neighbors, invalidate, neighbors, last_colon,
  parse_wp_rest, parse_wp_slug, wp_item_slug, short_item_slug, strip_prefix,
}

-- What is cached for a node is what would be found for it.
abbrev IsCoherent : Option LibraryView → List WhirlpoolView → Dict String (List GraphEdge) → Type 0
IsCoherent lib wps cache =
    (node : String) (edges : List GraphEdge)
    → get node cache ≡ some edges
    → edges ≡ materialize_neighbors lib wps node

-- Queries one after the other, and what is invalidated between them.
pub data Query : Type 0 where
  ask : String → Query
  refresh : Query

abbrev pub answers : List Query → View → List (List GraphEdge)
answers [] v = []
answers (ask node ∷ qs) v = let (v', edges) = neighbors node v in edges ∷ answers qs v'
answers (refresh ∷ qs) v = answers qs (invalidate v)

-- The answers of a view without a cache.
abbrev pub plain_answers :
    Option LibraryView → List WhirlpoolView → List Query → List (List GraphEdge)
plain_answers lib wps [] = []
plain_answers lib wps (ask node ∷ qs) =
    materialize_neighbors lib wps node ∷ plain_answers lib wps qs
plain_answers lib wps (refresh ∷ qs) = plain_answers lib wps qs

abbrev Holds : Option LibraryView → List WhirlpoolView → View → Type 0
Holds lib wps v = (v.library ≡ lib) × (v.whirlpools ≡ wps) × IsCoherent lib wps v.neighbors_cache

colon_before : (t : String) → last_colon t ≡ none → last_colon (join_text ":" t) ≡ some ("", t)
unfolding last_colon
colon_before t h =
    let whole : join_text ":" t ≡ ":" ∷ₜ t =
      append.cons ":" text_end t ∙ ap (λ s. ":" ∷ₜ s) (append.nil t) in
    ap last_colon whole ∙ rw h refl

last_colon_later :
    (c : Char) (s a b : String)
    → last_colon s ≡ some (a, b)
    → last_colon (c ∷ₜ s) ≡ some (c ∷ₜ a, b)
unfolding last_colon
last_colon_later c s a b h = rw (h, last_colon) refl

-- Before a part with no colon stands the last colon.
last_colon-append :
    (s t : String) → last_colon t ≡ none → last_colon (join_text s (join_text ":" t)) ≡ some (s, t)
unfolding last_colon
last_colon-append text_end t h = ap last_colon (append.nil (join_text ":" t)) ∙ colon_before t h
last_colon-append (c ∷ₜ s) t h =
    ap last_colon (append.cons c s (join_text ":" t))
    ∙ last_colon_later c (join_text s (join_text ":" t)) s t (last_colon-append s t h)

strip_wp : (s : String) → strip_prefix "WP:" (join_text "WP:" s) ≡ some s
unfolding strip_prefix
strip_wp s =
    let whole : join_text "WP:" s ≡ "W" ∷ₜ ("P" ∷ₜ (":" ∷ₜ s)) =
      append.cons "W" "P:" s
      ∙ ap (λ t. "W" ∷ₜ t)
          (append.cons "P" ":" s
            ∙ ap (λ t. "P" ∷ₜ t)
                (append.cons ":" text_end s ∙ ap (λ t. ":" ∷ₜ t) (append.nil s))) in
    ap (strip_prefix "WP:") whole

-- The slug of an item, if its short form has no colon, is parsed into the id of the whirlpool and the
-- short form of the item's id, whether or not the id of the whirlpool has colons.
pub parse_wp_slug-wp_item_slug :
    (id : String) (item : Item)
    → last_colon (short_item_slug item.item_id) ≡ none
    → parse_wp_slug (wp_item_slug id item) ≡ some (id, short_item_slug item.item_id)
unfolding parse_wp_slug wp_item_slug parse_wp_rest
parse_wp_slug-wp_item_slug id item h =
    let short = short_item_slug item.item_id in
    let rest = join_text id (join_text ":" short) in
    let parsed : parse_wp_rest rest ≡ (id, short) =
      rw (last_colon-append id short h, parse_wp_rest) refl in
    rw (strip_wp rest, parse_wp_slug) (ap some parsed)
