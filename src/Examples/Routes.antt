-- ===== src/Examples/Routes.antt =====
-- A graph of three nodes, a view of one whirlpool, and two sessions.
use maestro_orchestrator.Prelude.{
  ℕ, String, ◌≡◌, refl, Bool, false, none, some, List, [], ◌∷◌, ◌==◌, text_keys, if◌then◌else◌,
}
use maestro_orchestrator.Prelude.Float.{Fixed, fixed_float}
use maestro_orchestrator.Router.{GraphEdge, shared_tag, hops_to}
use maestro_orchestrator.Router.Hops.{IsDistance, hops_to_shortest}
use maestro_orchestrator.Router.Graph.{
  Item, WhirlpoolView, parse_wp_slug, wp_item_slug, short_item_slug, last_colon,
}
use maestro_orchestrator.Router.Views.{Query, ask, refresh, parse_wp_slug-wp_item_slug}
use maestro_orchestrator.Router.Conformity.{ConformitySession, ConformityWindow}

abbrev edge : String → String → GraphEdge
edge a b = record { src = a; dst = b; edge_type = shared_tag }

abbrev beside : String → List GraphEdge
beside node =
    if node == "TAG:energy"
    then edge "TAG:energy" "CART:grid@1" ∷ []
    else if node == "CART:grid@1"
    then edge "CART:grid@1" "TAG:energy" ∷ edge "CART:grid@1" "CART:grid@0" ∷ []
    else []

hops_to_shortest_example :
    IsDistance beside
      ("TAG:energy" ∷ [])
      "CART:grid@0"
      6
      (hops_to beside ("TAG:energy" ∷ []) 6 "CART:grid@0")
hops_to_shortest_example = hops_to_shortest beside ("TAG:energy" ∷ []) "CART:grid@0" 6

abbrev item : Item
item = record {
  item_id = "sha256:0123456789abcdef";
  domain_tags = "energy" ∷ [];
  source_ids = "example.org" ∷ [];
}

abbrev whirlpool : WhirlpoolView
whirlpool = record {
  whirlpool_id = "news:eu";
  known_tags = "energy" ∷ [];
  get_by_slug = λ s. if s == "01234567" then some item else none;
  items_with_source = λ s. item ∷ [];
  items_with_tag = λ s. item ∷ [];
}

abbrev queries : List Query
queries = ask "TAG:energy" ∷ ask "TAG:energy" ∷ refresh ∷ ask "WP:news:eu:01234567" ∷ []

parse_wp_slug-wp_item_slug_example :
    parse_wp_slug (wp_item_slug "news:eu" item) ≡ some ("news:eu", short_item_slug item.item_id)
unfolding last_colon short_item_slug
parse_wp_slug-wp_item_slug_example = parse_wp_slug-wp_item_slug "news:eu" item refl

abbrev session : ConformitySession
session = record {
  session_id = "s";
  participated_agents = "Sol" ∷ "Aria" ∷ [];
  outlier_agents = "Aria" ∷ [];
}

abbrev window : ConformityWindow Fixed
window = record { n_max = 20; n_min = 1; lambda_decay = 50000; floor = 6000 }

abbrev flat : Fixed → ℕ → Fixed
flat lambda i = 10000

abbrev by_name : String → String → Bool
by_name a b = false
