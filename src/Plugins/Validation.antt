-- ===== src/Plugins/Validation.antt =====
-- `validate` of maestro/plugins/manager.py. Parameters: `integers` is `[int(p) for p in text.split(".")]`,
-- `none` where it raises; `dir_exists` and `entry_exists` are the file system.
use maestro_orchestrator.Prelude.{
  ℕ, String, ◌≡◌, ◌≢◌, ◌⊎◌, Bool, true, false, not, ◌&&◌, ◌||◌, Option, none, some, List, [], ◌∷◌,
  ◌++◌, ◌==◌, text_keys, if◌then◌else◌, ltb, nat_beq,
}
use maestro_orchestrator.Prelude.Lists.{contains, nonempty, All, Any}
use maestro_orchestrator.Prelude.Dict.{get}
use maestro_orchestrator.Plugins.{PluginManifest, validated, Manager}
use maestro_orchestrator.Plugins.Lifecycle.{put_state}

pub data ValidationError : Type 0 where
  missing_field unknown_category requires_newer requires_older unresolved unknown_permission :
      String → ValidationError
  entry_point_not_found : ValidationError

abbrev pub categories : List String
categories =
    "agent" ∷ "analyzer" ∷ "aggregator" ∷ "storage" ∷ "output" ∷ "hook" ∷ "proof" ∷ "embedding" ∷ []

abbrev pub known_permissions : List String
known_permissions = "network" ∷ "filesystem" ∷ "injection" ∷ "compute" ∷ []

abbrev pub maestro_version : String
maestro_version = "7.4.0"

-- `<` on tuples.
unfoldable pub tuple_lt : List ℕ → List ℕ → Bool
tuple_lt [] [] = false
tuple_lt [] (y ∷ ys) = true
tuple_lt (x ∷ xs) [] = false
tuple_lt (x ∷ xs) (y ∷ ys) = ltb x y || (nat_beq x y && tuple_lt xs ys)

unfoldable pub missing : String → String → List ValidationError
missing field value = if value == "" then missing_field field ∷ [] else []

-- The required fields, with their values.
unfoldable pub required : PluginManifest → List (String × String)
required p =
    ("plugin_id", p.plugin_id)
    ∷ ("name", p.name)
    ∷ ("version", p.version)
    ∷ ("category", p.category)
    ∷ ("entry_point", p.entry_point)
    ∷ ("class_name", p.class_name)
    ∷ []

unfoldable pub missing_fields : List (String × String) → List ValidationError
unfolding missing
missing_fields [] = []
missing_fields ((field, value) ∷ rest) = missing field value ++ missing_fields rest

unfoldable pub unresolved_dependencies : Manager → List String → List ValidationError
unresolved_dependencies m [] = []
unresolved_dependencies m (d ∷ ds) = elim (get d m.plugins) [
  | none ↦ unresolved d ∷ unresolved_dependencies m ds
  | some _ ↦ unresolved_dependencies m ds
]

unfoldable pub unknown_permissions : List String → List ValidationError
unknown_permissions [] = []
unknown_permissions (p ∷ ps) =
    let rest = unknown_permissions ps in
    if contains known_permissions p then rest else unknown_permission p ∷ rest

unfoldable pub category_errors : String → List ValidationError
category_errors c = if contains categories c then [] else unknown_category c ∷ []

module _ (integers : String → Option (List ℕ)) (dir_exists : String → Bool)
    (entry_exists : String → String → Bool) where
  unfoldable pub version_tuple : String → List ℕ
  version_tuple text = elim (integers text) [ none ↦ 0 ∷ 0 ∷ 0 ∷ [] | some ns ↦ ns ]

  unfoldable pub minimum_errors : String → List ValidationError
  unfolding tuple_lt version_tuple
  minimum_errors v =
      if v == ""
      then []
      else if tuple_lt (version_tuple maestro_version) (version_tuple v)
      then requires_newer v ∷ []
      else []

  unfoldable pub maximum_errors : Option String → List ValidationError
  unfolding tuple_lt version_tuple
  maximum_errors none = []
  maximum_errors (some v) =
      if v == ""
      then []
      else if tuple_lt (version_tuple v) (version_tuple maestro_version)
      then requires_older v ∷ []
      else []

  unfoldable pub entry_errors : String → String → List ValidationError
  entry_errors id entry =
      if dir_exists id && not (entry_exists id entry) then entry_point_not_found ∷ [] else []

  unfoldable pub validation_errors : PluginManifest → Manager → List ValidationError
  unfolding missing_fields required category_errors minimum_errors maximum_errors
      unresolved_dependencies entry_errors unknown_permissions
  validation_errors p m =
      missing_fields (required p)
      ++ (category_errors p.category
          ++ (minimum_errors p.maestro_version_min
              ++ (maximum_errors p.maestro_version_max
                  ++ (unresolved_dependencies m p.dependencies
                      ++ (entry_errors p.plugin_id p.entry_point
                          ++ unknown_permissions p.permissions)))))

  -- The manager, whether the manifest is valid, and the errors.
  unfoldable pub validate : PluginManifest → Manager → Manager × Bool × List ValidationError
  unfolding validation_errors put_state
  validate p m =
      let errors = validation_errors p m in
      if nonempty errors then (m, false, errors) else (put_state p.plugin_id validated m, true, [])

  -- What a valid manifest is.
  pub record IsValid (p : PluginManifest) (m : Manager) : Type 0 where
    pub filled : All (λ f. f.1 ≢ "") (required p)
    pub category_known : Any (λ c. c ≡ p.category) categories
    pub not_too_new :
        (p.maestro_version_min ≡ "")
        ⊎ (tuple_lt (version_tuple maestro_version) (version_tuple p.maestro_version_min) ≡ false)
    pub not_too_old :
        (v : String)
        → p.maestro_version_max ≡ some v
        → (v ≡ "") ⊎ (tuple_lt (version_tuple v) (version_tuple maestro_version) ≡ false)
    pub resolved : All (λ d. get d m.plugins ≢ none) p.dependencies
    pub entry_found :
        (dir_exists p.plugin_id ≡ false) ⊎ (entry_exists p.plugin_id p.entry_point ≡ true)
    pub permitted : All (λ x. Any (λ c. c ≡ x) known_permissions) p.permissions
