-- ===== src/Shards.antt =====
-- `ShardManager` of maestro/shard_manager.py: the shard files of models, their manifest, and the choice of the
-- files for a range of layers. A file is what can be read of it; the layers of a descriptor are `none` where
-- the code has (-1, -1). Parameters stand for the patterns that find a layer in the name of a tensor, and for
-- the sort of names.
use Prim.Native.Char.{code}
use Prim.Native.String.{[] as text_end, ◌∷◌ as ◌∷ₜ◌}
use maestro_orchestrator.Prelude.{
  ℕ, zero, suc, ◌+◌, ◌-◌, String, Bool, true, false, not, ◌&&◌, ◌||◌, Option, none, some, List, [],
  ◌∷◌, ◌++◌, map, ◌==◌, text_keys, if◌then◌else◌, ltb, leb, nat_beq,
}
use maestro_orchestrator.Prelude.Sorted.{insert_number}
use maestro_orchestrator.Prelude.Lists.{length, keep, any, contains, nonempty}
use maestro_orchestrator.Prelude.Dict.{Dict, get, set, delete}
pub mod Layers

pub record Descriptor : Type 0 where
  pub layer_range : Option (ℕ × ℕ)
  pub size_bytes : ℕ
  pub checksum : String
  pub tensor_count : ℕ
  pub precision : String

-- A *.safetensors file: its descriptor if it can be read, and its hash now.
pub record ShardFile : Type 0 where
  pub filename : String
  pub described : Option Descriptor
  pub hash : String

pub record ShardFileEntry : Type 0 where
  pub filename : String
  pub descriptor : Descriptor

pub record ShardManifest : Type 0 where
  pub model_id : String
  pub total_layers : ℕ
  pub layer_coverage : List (ℕ × ℕ)
  pub files : List ShardFileEntry
  pub total_size_bytes : ℕ
  pub precision : String
  pub complete : Bool

-- The directory of a model: its files in the order of their names, and its manifest.
pub record ModelDir : Type 0 where
  pub files : List ShardFile
  pub manifest : Option ShardManifest

abbrev pub ShardDir : Type 0
ShardDir = Dict String ModelDir

-- model_id.replace("/", "__")
unfoldable pub safe_name : String → String
safe_name text_end = text_end
safe_name (c ∷ₜ s) =
    let rest = safe_name s in if nat_beq (code c) 47 then "_" ∷ₜ ("_" ∷ₜ rest) else c ∷ₜ rest

-- The directory of a model, which is made where it is missing.
unfoldable pub model_dir : String → ShardDir → ModelDir
unfolding safe_name
model_dir model d = elim (get (safe_name model) d) [
  | none ↦ record { files = []; manifest = none }
  | some m ↦ m
]

unfoldable pub readable_entries : List ShardFile → List ShardFileEntry
readable_entries [] = []
readable_entries (f ∷ fs) = elim f.described [
  | none ↦ readable_entries fs
  | some x ↦ record { filename = f.filename; descriptor = x } ∷ readable_entries fs
]

-- all_layers.add(i) for i in range(start, end + 1): so many layers from one on.
unfoldable pub add_layers : ℕ → ℕ → List ℕ → List ℕ
unfolding insert_number
add_layers start zero layers = layers
add_layers start (suc count) layers = add_layers (start + 1) count (insert_number start layers)

unfoldable pub add_range : Option (ℕ × ℕ) → List ℕ → List ℕ
unfolding add_layers
add_range none layers = layers
add_range (some (start, end)) layers = add_layers start (end + 1 - start) layers

-- sorted(all_layers)
unfoldable pub all_layers : List ShardFileEntry → List ℕ
unfolding add_range
all_layers [] = []
all_layers (e ∷ es) = add_range e.descriptor.layer_range (all_layers es)

-- The loop over the sorted layers, from a start and the layer before.
unfoldable pub ranges_from : ℕ → ℕ → List ℕ → List (ℕ × ℕ)
ranges_from start prev [] = (start, prev) ∷ []
ranges_from start prev (layer ∷ layers) = elim (nat_beq layer (prev + 1)) [
  | true ↦ ranges_from start layer layers
  | false ↦ (start, prev) ∷ ranges_from layer layer layers
]

unfoldable pub ranges_of : List ℕ → List (ℕ × ℕ)
unfolding ranges_from
ranges_of [] = []
ranges_of (layer ∷ layers) = ranges_from layer layer layers

-- max(all_layers) + 1, and 0 where there is none.
unfoldable pub total_of : List ℕ → ℕ
total_of [] = 0
total_of (n ∷ []) = n + 1
total_of (n ∷ m ∷ ns) = total_of (m ∷ ns)

-- len(ranges) == 1 and ranges[0][0] == 0
unfoldable pub is_complete : List (ℕ × ℕ) → Bool
is_complete [] = false
is_complete ((start, end) ∷ []) = nat_beq start 0
is_complete (r ∷ s ∷ rs) = false

unfoldable pub total_size : List ShardFileEntry → ℕ
total_size [] = 0
total_size (e ∷ es) = e.descriptor.size_bytes + total_size es

-- The first precision that is not empty.
unfoldable pub first_precision : List ShardFileEntry → String
first_precision [] = ""
first_precision (e ∷ es) =
    let later = first_precision es in
    if e.descriptor.precision == "" then later else e.descriptor.precision

unfoldable pub manifest_of : String → List ShardFile → ShardManifest
unfolding readable_entries all_layers ranges_of total_of is_complete total_size first_precision
manifest_of model files =
    let entries = readable_entries files in
    let layers = all_layers entries in
    record {
      model_id = model;
      total_layers = total_of layers;
      layer_coverage = ranges_of layers;
      files = entries;
      total_size_bytes = total_size entries;
      precision = first_precision entries;
      complete = is_complete (ranges_of layers);
    }

unfoldable pub index_shards : String → ShardDir → ShardDir × ShardManifest
unfolding model_dir manifest_of safe_name
index_shards model d =
    let m = model_dir model d in
    let manifest = manifest_of model m.files in
    (set (safe_name model) (record m { manifest = some manifest }) d, manifest)

unfoldable pub load_manifest : String → ShardDir → Option ShardManifest
unfolding model_dir
load_manifest model d = (model_dir model d).manifest

-- Whether a file is left out for a range of layers.
unfoldable pub outside_range : Option (ℕ × ℕ) → ShardFileEntry → Bool
outside_range none e = false
outside_range (some (first, last)) e = elim e.descriptor.layer_range [
  | none ↦ false
  | some (start, end) ↦ ltb end first || ltb last start
]

-- The entries of `generate_shard_config`; the range counts if both ends are given.
unfoldable pub generate_shard_config :
    String → Option (ℕ × ℕ) → ShardDir → ShardDir × List ShardFileEntry
unfolding load_manifest index_shards outside_range
generate_shard_config model range d = elim (load_manifest model d) [
  | some m ↦ (d, keep (λ e. not (outside_range range e)) m.files)
  | none ↦
      let (d', m) = index_shards model d in (d', keep (λ e. not (outside_range range e)) m.files)
]

pub data Verdict : Type 0 where
  passed failed missing_file : Verdict

unfoldable pub file_named : String → List ShardFile → Option ShardFile
file_named name [] = none
file_named name (f ∷ fs) = if f.filename == name then some f else file_named name fs

unfoldable pub verdict_of : List ShardFile → ShardFileEntry → Verdict
unfolding file_named
verdict_of files e = elim (file_named e.filename files) [
  | none ↦ missing_file
  | some f ↦
      if e.descriptor.checksum == ""
      then passed
      else if f.hash == e.descriptor.checksum
      then passed
      else failed
]

-- `verify_all`, with each file and its verdict; `none` where there is no manifest.
unfoldable pub verify_all : String → ShardDir → Option (List (String × Verdict))
unfolding load_manifest model_dir verdict_of
verify_all model d = elim (load_manifest model d) [
  | none ↦ none
  | some m ↦ some (map (λ e. (e.filename, verdict_of (model_dir model d).files e)) m.files)
]

unfoldable pub remove_model : String → ShardDir → ShardDir × Bool
unfolding model_dir safe_name
remove_model model d =
    if nonempty (model_dir model d).files then (delete (safe_name model) d, true) else (d, false)

-- The files that `_resolve_files_for_layers` needs, from the index of a model: `layer_of` finds the layer in
-- the name of a tensor. A tensor without a layer is needed with layer 0.
module _ (layer_of : String → Option ℕ) (sorted : List String → List String) where
  unfoldable pub is_needed : ℕ → ℕ → String → Bool
  is_needed first last tensor = elim (layer_of tensor) [
    | some layer ↦ leb first layer && leb layer last
    | none ↦ nat_beq first 0
  ]

  unfoldable pub needed_files : ℕ → ℕ → Dict String String → List String
  unfolding is_needed
  needed_files first last [] = []
  needed_files first last ((tensor, file) ∷ rest) =
      let later = needed_files first last rest in
      if is_needed first last tensor && not (contains later file) then file ∷ later else later

  -- All files where there is no index, or nothing in it is needed.
  unfoldable pub resolve_files_for_layers :
      List String → ℕ → ℕ → Option (Dict String String) → List String
  unfolding needed_files
  resolve_files_for_layers files first last none = files
  resolve_files_for_layers files first last (some weight_map) =
      let needed = needed_files first last weight_map in
      if nonempty needed then sorted needed else files
