-- ===== src/Examples/Shelves.antt =====
-- A directory with two shard files of a model, one file that cannot be read, and one without layers.
use maestro_orchestrator.Prelude.{
  ℕ, String, ◌≡◌, refl, Option, none, some, List, [], ◌∷◌, text_keys, ltb,
}
use maestro_orchestrator.Prelude.Lists.{any}
use maestro_orchestrator.Prelude.Dict.{get, set}
use maestro_orchestrator.Shards.{
  ShardFile, ShardDir, passed, readable_entries, manifest_of, index_shards, verify_all,
}
use maestro_orchestrator.Shards.Layers.{holds_layer, complete_lem}

abbrev shard : String → Option (ℕ × ℕ) → ShardFile
shard name layers = record {
  filename = name;
  described = some (record {
    layer_range = layers;
    size_bytes = 10;
    checksum = "sum";
    tensor_count = 2;
    precision = "fp16";
  });
  hash = "sum";
}

abbrev shards : List ShardFile
shards =
    shard "a" (some (0, 3))
    ∷ record { filename = "b"; described = none; hash = "" }
    ∷ shard "c" (some (2, 5))
    ∷ shard "d" none
    ∷ []

complete_lem_example :
    any (holds_layer 5) (readable_entries shards) ≡ ltb 5 (manifest_of "m" shards).total_layers
unfolding manifest_of
complete_lem_example = complete_lem "m" shards 5 refl

-- With a gap between its files a model is not complete.
gap :
    (manifest_of "m" (shard "a" (some (0, 3)) ∷ shard "c" (some (5, 6)) ∷ [])).layer_coverage
    ≡ (0, 3) ∷ (5, 6) ∷ []
unfolding manifest_of
gap = refl

abbrev shelf : ShardDir
shelf = ("org__m", record { files = shards; manifest = none }) ∷ []

checked :
    verify_all "org/m" (index_shards "org/m" shelf).0
    ≡ some (("a", passed) ∷ ("c", passed) ∷ ("d", passed) ∷ [])
unfolding verify_all index_shards get set
checked = refl
