-- ===== src/Examples/Cartridges.antt =====
-- A cartridge that two keys sign, in a library whose policy asks for two signatures. The digest of a
-- body tells how long it is, and a signature is the message itself.
use maestro_orchestrator.Prelude.{
  String, ◌≡◌, ◌↔◌, ◌≤◌, refl, subst, some-inj, true, false, Option, none, some, List, [], ◌∷◌,
  arith, text_keys, ◌==◌, if◌then◌else◌,
}
use maestro_orchestrator.Prelude.Lists.{All}
use maestro_orchestrator.Prelude.Dict.{get}
use maestro_orchestrator.Librarian.{
  Bytes, definition, bytes_raw, Signature, Manifest, TrustedKey, TrustList, Policy, Crypto,
  threshold_of, compute_content_hash, compute_manifest_hash, content_hash_ok_of, verify_one_sig,
  verify_manifest,
}
use maestro_orchestrator.Librarian.Threshold.{
  valid_count, threshold_met_iff, one_signer_meets_threshold,
}
use maestro_orchestrator.Librarian.Store.{
  Librarian, load, loaded, load_body, head, commit, committed, write,
}
use maestro_orchestrator.Librarian.Store.Commit.{commit_then_load, commit_keeps_loads}
use maestro_orchestrator.Librarian.Scribe.{
  anchor, anchored, seal, bind_hashes, append_signatures, sign,
}
use maestro_orchestrator.Librarian.Scribe.Signers.{
  KeyWorks, IsAnchored, anchor_lem, anchored_manifest_verifies,
}

abbrev crypto : Crypto
crypto = record {
  sha256 = λ b. elim b [ [] ↦ "00" | _ ∷ _ ↦ "11" ];
  dumps = λ m. [];
  b64decode = λ s. some (if s == "sha256:00" then 7 ∷ [] else []);
  verify = λ key message raw. elim raw [ [] ↦ false | _ ∷ _ ↦ true ];
}

abbrev private_sign : String → String → Option String
private_sign kid hash = some "sha256:00"

abbrev key_of : String → TrustedKey
key_of kid = record { key_id = kid; public_key = kid; added_at = ""; added_by_operator_key = "" }

abbrev trust : TrustList
trust = record { keys = ("k1", key_of "k1") ∷ ("k2", key_of "k2") ∷ []; operator_signature = none }

abbrev two_needed : Policy
two_needed = record {
  min_signatures_by_kind = ("definition", 2) ∷ [];
  review_external_imports = false;
  import_caps_by_key = [];
  canonical_form_registry = bytes_raw ∷ [];
  operator_key_fingerprint = "";
}

abbrev body : Bytes
body = 1 ∷ 2 ∷ []

abbrev pending : Manifest
pending = record {
  cartridge_id = "metre";
  version = "1";
  kind = definition;
  content_hash = "";
  manifest_hash = "";
  canonical_form = bytes_raw;
  supersedes = [];
  revokes = [];
  domain_tags = "units" ∷ [];
  issued_at = "10:00";
  not_before = none;
  not_after = none;
  signatures = [];
  metadata = [];
}

abbrev signature_of : String → Signature
signature_of kid = record {
  key_id = kid;
  algo = "ed25519";
  sig = "sha256:00";
  signed_at = "10:00";
  role = "scribe";
}

abbrev bound : Manifest
bound = record pending { content_hash = "sha256:11"; manifest_hash = "sha256:00" }

abbrev both_signed : Manifest
both_signed = record bound { signatures = signature_of "k1" ∷ signature_of "k2" ∷ [] }

abbrev library : Librarian
library = record {
  root = some (record { manifests = []; bodies = []; heads = []; versions = [] });
  trust = some trust;
  policy = two_needed;
}

abbrev two_keys : List String
two_keys = "k1" ∷ "k2" ∷ []

is_anchored : anchor private_sign "10:00" crypto pending body two_keys ≡ anchored both_signed
unfolding anchor compute_content_hash seal bind_hashes compute_manifest_hash append_signatures sign
is_anchored = refl

anchor_lem_example : IsAnchored private_sign "10:00" crypto pending body two_keys both_signed
anchor_lem_example =
    anchor_lem private_sign "10:00" crypto pending both_signed body two_keys is_anchored

made : (sig : String) → "sha256:00" ≡ sig → crypto.b64decode sig ≡ some (7 ∷ [])
made sig e = subst (λ t. crypto.b64decode t ≡ some (7 ∷ [])) e refl

work : All (KeyWorks private_sign "10:00" crypto trust) two_keys
unfolding get
work = (
  (key_of "k1", refl, λ hash sig e. (7 ∷ [], made sig (some-inj e), refl)),
  ((key_of "k2", refl, λ hash sig e. (7 ∷ [], made sig (some-inj e), refl)), tt),
)

anchored_manifest_verifies_example :
    (verify_manifest crypto both_signed body trust two_needed).threshold_met ≡ true
unfolding threshold_of get
anchored_manifest_verifies_example =
    anchored_manifest_verifies private_sign "10:00" crypto pending both_signed body two_keys trust
      two_needed refl work (omega arith) is_anchored

abbrev with_cartridge : Librarian
with_cartridge = record library {
  root =
      some (
        write both_signed body (record { manifests = []; bodies = []; heads = []; versions = [] }));
}

commits : commit crypto both_signed body library ≡ committed with_cartridge
unfolding commit verify_manifest content_hash_ok_of compute_content_hash compute_manifest_hash
    verify_one_sig threshold_of get
commits = refl

commit_then_load_example :
    (load crypto "sha256:00" with_cartridge ≡ loaded both_signed)
    × (head "metre" with_cartridge ≡ some both_signed)
    × (load_body "sha256:11" with_cartridge ≡ some body)
commit_then_load_example = commit_then_load crypto both_signed body library with_cartridge commits

abbrev revised : Manifest
revised = record both_signed { version = "2" }

abbrev with_revision : Librarian
with_revision = record library {
  root = some (
      write revised body (
        write both_signed body
          (record { manifests = []; bodies = []; heads = []; versions = [] })));
}

commits_again : commit crypto revised body with_cartridge ≡ committed with_revision
unfolding commit verify_manifest content_hash_ok_of compute_content_hash compute_manifest_hash
    verify_one_sig threshold_of get
commits_again = refl

commit_keeps_loads_example : (now : Manifest) × (load crypto "sha256:00" with_revision ≡ loaded now)
commit_keeps_loads_example =
    commit_keeps_loads crypto revised body with_cartridge with_revision "sha256:00" both_signed
      commits_again commit_then_load_example.0

threshold_met_iff_example :
    ((verify_manifest crypto both_signed body trust two_needed).threshold_met ≡ true) ↔ (
      (compute_content_hash crypto body bytes_raw ≡ some "sha256:11")
      × ("sha256:00" ≡ compute_manifest_hash crypto both_signed)
      × (threshold_of two_needed definition
          ≤ valid_count crypto "sha256:00" trust both_signed.signatures))
threshold_met_iff_example = threshold_met_iff crypto both_signed body trust two_needed

one_signer_meets_threshold_example :
    (verify_manifest crypto
      (record bound { signatures = signature_of "k1" ∷ signature_of "k1" ∷ [] })
      body
      trust
      two_needed).threshold_met
    ≡ true
unfolding compute_content_hash compute_manifest_hash get threshold_of
one_signer_meets_threshold_example =
    one_signer_meets_threshold crypto bound body trust two_needed (signature_of "k1") 2 refl refl
      (refl, key_of "k1", 7 ∷ [], refl, refl, refl) (omega arith)
