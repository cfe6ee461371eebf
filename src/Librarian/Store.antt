-- ===== src/Librarian/Store.antt =====
-- The `Librarian` of maestro/librarian/store.py: `load`, `load_body`, `head` and `commit`. Under the
-- root directory a manifest and a body stand in files named after their bare hashes, and `head` and
-- the versions are links to manifests. A file is modelled by the value that it stands for.
use maestro_orchestrator.Prelude.{
  ℕ, String, Bool, true, false, Option, none, some, List, [], ◌∷◌, if◌then◌else◌, text_keys,
}
use maestro_orchestrator.Prelude.Dict.{Dict, get, set}
use maestro_orchestrator.Librarian.{
  Bytes, Manifest, TrustList, Policy, Crypto, strip_hash_prefix, VerificationResult,
  verify_manifest,
}
pub mod Commit

pub record Files : Type 0 where
  pub manifests : Dict String Manifest
  pub bodies : Dict String Bytes
  pub heads : Dict String String
  pub versions : Dict String (Dict String String)

pub record Librarian : Type 0 where
  pub root : Option Files
  pub trust : Option TrustList
  pub policy : Policy

pub data LoadResult : Type 0 where
  loaded : Manifest → LoadResult
  no_root not_found body_missing no_trust_list : LoadResult
  not_verified : VerificationResult → LoadResult

pub data CommitResult : Type 0 where
  committed : Librarian → CommitResult
  root_required trust_required : CommitResult
  policy_error : VerificationResult → CommitResult

unfoldable pub load_body : String → Librarian → Option Bytes
load_body hash l = elim l.root [
  | none ↦ none
  | some files ↦ get (strip_hash_prefix hash) files.bodies
]

unfoldable pub head : String → Librarian → Option Manifest
head id l = elim l.root [
  | none ↦ none
  | some files ↦ elim (get id files.heads) [ none ↦ none | some bare ↦ get bare files.manifests ]
]

-- The links `versions/<version>` of one cartridge.
unfoldable pub versions_of : String → Files → Dict String String
versions_of id files = elim (get id files.versions) [ none ↦ [] | some d ↦ d ]

-- What `commit` writes.
unfoldable pub write : Manifest → Bytes → Files → Files
unfolding versions_of
write m body files =
    let bare = strip_hash_prefix m.manifest_hash in
    record {
      manifests = set bare m files.manifests;
      bodies = set (strip_hash_prefix m.content_hash) body files.bodies;
      heads = set m.cartridge_id bare files.heads;
      versions =
          set m.cartridge_id (set m.version bare (versions_of m.cartridge_id files)) files.versions;
    }

module _ (c : Crypto) where
  unfoldable pub load_verified : Manifest → Bytes → TrustList → Policy → LoadResult
  load_verified m body trust policy =
      let result = verify_manifest c m body trust policy in
      if result.threshold_met then loaded m else not_verified result

  unfoldable pub load_from : String → Files → Option TrustList → Policy → LoadResult
  load_from hash files trust policy = elim (get (strip_hash_prefix hash) files.manifests) [
    | none ↦ not_found
    | some m ↦ elim (get (strip_hash_prefix m.content_hash) files.bodies) [
      | none ↦ body_missing
      | some body ↦ elim trust [ none ↦ no_trust_list | some t ↦ load_verified m body t policy ]
    ]
  ]

  unfoldable pub load : String → Librarian → LoadResult
  load hash l = elim l.root [ none ↦ no_root | some files ↦ load_from hash files l.trust l.policy ]

  unfoldable pub commit : Manifest → Bytes → Librarian → CommitResult
  commit m body l = elim l.root [
    | none ↦ root_required
    | some files ↦ elim l.trust [
      | none ↦ trust_required
      | some trust ↦
          let result = verify_manifest c m body trust l.policy in
          if result.threshold_met
          then committed (record l { root = some (write m body files) })
          else policy_error result
    ]
  ]
