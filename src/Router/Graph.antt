-- ===== src/Router/Graph.antt =====
-- `CompositeGraphView` of maestro/router/graph.py. The librarian and the whirlpools that it asks are records
-- of the operations that it uses, most of which raise NotImplementedError as yet.
use Prim.Native.String.{[] as text_end, ◌∷◌ as ◌∷ₜ◌, ◌++◌ as join_text}
use Prim.Native.Char.{code}
use maestro_orchestrator.Prelude.{
  ℕ, zero, suc, String, true, false, Option, none, some, List, [], ◌∷◌, ◌++◌, map, ◌==◌, text_keys,
  if◌then◌else◌, nat_beq,
}
use maestro_orchestrator.Prelude.Lists.{contains}
use maestro_orchestrator.Prelude.Dict.{Dict, get, set}
use maestro_orchestrator.Router.{
  GraphEdge, EdgeType, supersedes, revokes, shared_corroborator, shared_tag,
}

pub record CartridgeRef : Type 0 where
  pub cartridge_id : String
  pub version : String

-- The librarian: `domain_tags` is those of the manifest of a slug, if there is one.
pub record LibraryView : Type 0 where
  pub known_tags : List String
  pub domain_tags : String → Option (List String)
  pub supersedes_slugs : String → List String
  pub revokes_slugs : String → List String
  pub cartridges_with_tag : String → List CartridgeRef

pub record Item : Type 0 where
  pub item_id : String
  pub domain_tags : List String
  pub source_ids : List String

pub record WhirlpoolView : Type 0 where
  pub whirlpool_id : String
  pub known_tags : List String
  pub get_by_slug : String → Option Item
  pub items_with_source : String → List Item
  pub items_with_tag : String → List Item

-- The text behind a prefix, if it is there.
unfoldable pub strip_prefix : String → String → Option String
strip_prefix text_end s = some s
strip_prefix (c ∷ₜ p) text_end = none
strip_prefix (c ∷ₜ p) (d ∷ₜ s) =
    let rest = strip_prefix p s in if nat_beq (code c) (code d) then rest else none

unfoldable pub first_chars : ℕ → String → String
first_chars zero s = ""
first_chars (suc n) text_end = ""
first_chars (suc n) (c ∷ₜ s) = c ∷ₜ first_chars n s

-- What stands behind the first colon, or the text.
unfoldable pub behind_colon : String → String → String
behind_colon whole text_end = whole
behind_colon whole (c ∷ₜ s) =
    let later = behind_colon whole s in if nat_beq (code c) 58 then s else later

unfoldable pub short_item_slug : String → String
unfolding first_chars behind_colon
short_item_slug id = first_chars 8 (behind_colon id id)

-- The text before the last colon and the text behind it.
unfoldable pub last_colon : String → Option (String × String)
last_colon text_end = none
last_colon (c ∷ₜ s) = elim (last_colon s) [
  | some (before, behind) ↦ some (c ∷ₜ before, behind)
  | none ↦ if nat_beq (code c) 58 then some ("", s) else none
]

-- rest.rpartition(":")
unfoldable pub parse_wp_rest : String → String × String
unfolding last_colon
parse_wp_rest rest = elim (last_colon rest) [ none ↦ ("", rest) | some p ↦ p ]

-- `_parse_wp_slug` on a slug with its prefix.
unfoldable pub parse_wp_slug : String → Option (String × String)
unfolding strip_prefix parse_wp_rest
parse_wp_slug slug = elim (strip_prefix "WP:" slug) [
  | none ↦ none
  | some rest ↦ some (parse_wp_rest rest)
]

unfoldable pub wp_item_slug : String → Item → String
unfolding short_item_slug
wp_item_slug id item = join_text "WP:" (join_text id (join_text ":" (short_item_slug item.item_id)))

unfoldable pub cartridge_slug : CartridgeRef → String
cartridge_slug r = join_text "CART:" (join_text r.cartridge_id (join_text "@" r.version))

unfoldable pub tag_slug : String → String
tag_slug tag = join_text "TAG:" tag

unfoldable pub edges_to : String → EdgeType → List String → List GraphEdge
edges_to slug kind targets = map (λ t. record { src = slug; dst = t; edge_type = kind }) targets

unfoldable pub cartridge_neighbors : Option LibraryView → String → List GraphEdge
unfolding edges_to tag_slug
cartridge_neighbors none slug = []
cartridge_neighbors (some lib) slug = elim (lib.domain_tags slug) [
  | none ↦ []
  | some tags ↦
      edges_to slug supersedes (lib.supersedes_slugs slug)
      ++ (edges_to slug revokes (lib.revokes_slugs slug)
          ++ edges_to slug shared_tag (map tag_slug tags))
]

-- The partners of an item that are not among those seen.
unfoldable pub new_partners : List String → List String → List String
new_partners seen [] = []
new_partners seen (p ∷ ps) =
    if contains seen p then new_partners seen ps else p ∷ new_partners (p ∷ seen) ps

unfoldable pub partners_of : WhirlpoolView → List String → List String
unfolding wp_item_slug
partners_of wp [] = []
partners_of wp (source ∷ sources) =
    map (wp_item_slug wp.whirlpool_id) (wp.items_with_source source) ++ partners_of wp sources

unfoldable pub item_neighbors : WhirlpoolView → String → Item → List GraphEdge
unfolding edges_to tag_slug new_partners partners_of
item_neighbors wp slug item =
    edges_to slug shared_tag (map tag_slug item.domain_tags)
    ++ edges_to slug shared_corroborator (new_partners (slug ∷ []) (partners_of wp item.source_ids))

-- `_wp_by_id.get`: of whirlpools with one id the last counts.
unfoldable pub whirlpool_by_id : String → List WhirlpoolView → Option WhirlpoolView
whirlpool_by_id id [] = none
whirlpool_by_id id (wp ∷ wps) = elim (whirlpool_by_id id wps) [
  | some later ↦ some later
  | none ↦ if wp.whirlpool_id == id then some wp else none
]

unfoldable pub neighbors_in : List WhirlpoolView → String → String × String → List GraphEdge
unfolding whirlpool_by_id item_neighbors
neighbors_in wps slug (id, short) = elim (whirlpool_by_id id wps) [
  | none ↦ []
  | some wp ↦ elim (wp.get_by_slug short) [ none ↦ [] | some item ↦ item_neighbors wp slug item ]
]

unfoldable pub tagged_items : List WhirlpoolView → String → List String
unfolding wp_item_slug
tagged_items [] tag = []
tagged_items (wp ∷ wps) tag =
    map (wp_item_slug wp.whirlpool_id) (wp.items_with_tag tag) ++ tagged_items wps tag

unfoldable pub tagged_cartridges : Option LibraryView → String → List String
unfolding cartridge_slug
tagged_cartridges none tag = []
tagged_cartridges (some lib) tag = map cartridge_slug (lib.cartridges_with_tag tag)

-- `_materialize_neighbors`
unfoldable pub materialize_neighbors :
    Option LibraryView → List WhirlpoolView → String → List GraphEdge
unfolding strip_prefix cartridge_neighbors neighbors_in parse_wp_rest edges_to tagged_cartridges
    tagged_items
materialize_neighbors lib wps node = elim (strip_prefix "CART:" node) [
  | some _ ↦ cartridge_neighbors lib node
  | none ↦ elim (strip_prefix "WP:" node) [
    | some rest ↦ neighbors_in wps node (parse_wp_rest rest)
    | none ↦ elim (strip_prefix "TAG:" node) [
      | some tag ↦ edges_to node shared_tag (tagged_cartridges lib tag ++ tagged_items wps tag)
      | none ↦ []
    ]
  ]
]

pub record View : Type 0 where
  pub library : Option LibraryView
  pub whirlpools : List WhirlpoolView
  pub known : List String
  pub neighbors_cache : Dict String (List GraphEdge)

unfoldable pub whirlpool_tags : List WhirlpoolView → List String
whirlpool_tags [] = []
whirlpool_tags (wp ∷ wps) = wp.known_tags ++ whirlpool_tags wps

-- `_rebuild_known_tags`
unfoldable pub known_tags_of : Option LibraryView → List WhirlpoolView → List String
unfolding whirlpool_tags
known_tags_of none wps = whirlpool_tags wps
known_tags_of (some lib) wps = lib.known_tags ++ whirlpool_tags wps

unfoldable pub new_view : Option LibraryView → List WhirlpoolView → View
unfolding known_tags_of
new_view lib wps = record {
  library = lib;
  whirlpools = wps;
  known = known_tags_of lib wps;
  neighbors_cache = [];
}

unfoldable pub invalidate : View → View
unfolding known_tags_of
invalidate v = record v { known = known_tags_of v.library v.whirlpools; neighbors_cache = [] }

unfoldable pub neighbors : String → View → View × List GraphEdge
unfolding materialize_neighbors
neighbors node v = elim (get node v.neighbors_cache) [
  | some edges ↦ (v, edges)
  | none ↦
      let edges = materialize_neighbors v.library v.whirlpools node in
      (record v { neighbors_cache = set node edges v.neighbors_cache }, edges)
]

-- The texts before the dots of a tag, the longest first.
unfoldable pub dotted_prefixes : String → List String
dotted_prefixes text_end = []
dotted_prefixes (c ∷ₜ s) =
    map (λ p. c ∷ₜ p) (dotted_prefixes s) ++ (if nat_beq (code c) 46 then "" ∷ [] else [])

unfoldable pub first_known : List String → List String → Option String
first_known known [] = none
first_known known (t ∷ ts) = if contains known t then some t else first_known known ts

-- `_anchor_for_tag`
unfoldable pub anchor_for_tag : List String → String → Option String
unfolding first_known dotted_prefixes tag_slug
anchor_for_tag known tag = elim (first_known known (tag ∷ dotted_prefixes tag)) [
  | none ↦ none
  | some t ↦ some (tag_slug t)
]

unfoldable pub anchors_from : List String → List String → List String → List String
unfolding anchor_for_tag
anchors_from known seen [] = []
anchors_from known seen (tag ∷ tags) = elim (anchor_for_tag known tag) [
  | none ↦ anchors_from known seen tags
  | some a ↦ elim (contains seen a) [
    | true ↦ anchors_from known seen tags
    | false ↦ a ∷ anchors_from known (a ∷ seen) tags
  ]
]

unfoldable pub anchors_for_tags : List String → View → List String
unfolding anchors_from
anchors_for_tags tags v = anchors_from v.known [] tags
