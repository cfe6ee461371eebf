-- ===== src/Librarian.antt =====
-- maestro/librarian/types.py, addressing.py and verification.py: manifests of cartridges, their hashes,
-- and the check of their signatures. `Crypto` holds what the libraries do: SHA-256 as hexadecimal
-- text, the JSON text of a manifest, base64, and Ed25519.
use Prim.Native.Char.{code}
use Prim.Native.String.{[] as text_end, ◌∷◌ as ◌∷ₜ◌, ◌++◌ as join_text}
use Prim.Native.String.append
use maestro_orchestrator.Prelude.{
  ℕ, String, Bool, true, false, not, ◌&&◌, Option, none, some, List, [], ◌∷◌, map, ◌==◌, text_keys,
  nat_beq, leb, if◌then◌else◌, HasEquality, ◌↔◌, ◌≡◌, refl, ap, ◌∙◌,
}
use maestro_orchestrator.Prelude.Lists.{count_if}
use maestro_orchestrator.Prelude.Dict.{Dict, get}
pub mod Threshold
pub mod Store
pub mod Scribe

abbrev pub Bytes : Type 0
Bytes = List ℕ

pub data CartridgeKind : Type 0 where
  unit_definition statute_text protocol_spec schema definition reference_dataset revocation :
      CartridgeKind

pub data CanonicalForm : Type 0 where
  json_rfc8785 text_utf8_nfc bytes_raw : CanonicalForm

pub record Signature : Type 0 where
  pub key_id : String
  pub algo : String
  pub sig : String
  pub signed_at : String
  pub role : String

pub record Manifest : Type 0 where
  pub cartridge_id : String
  pub version : String
  pub kind : CartridgeKind
  pub content_hash : String
  pub manifest_hash : String
  pub canonical_form : CanonicalForm
  pub supersedes : List String
  pub revokes : List String
  pub domain_tags : List String
  pub issued_at : String
  pub not_before : Option String
  pub not_after : Option String
  pub signatures : List Signature
  pub metadata : Dict String String

pub record TrustedKey : Type 0 where
  pub key_id : String
  pub public_key : String
  pub added_at : String
  pub added_by_operator_key : String

pub record TrustList : Type 0 where
  pub keys : Dict String TrustedKey
  pub operator_signature : Option String

-- kind.value
unfoldable pub kind_value : CartridgeKind → String
kind_value unit_definition = "unit_definition"
kind_value statute_text = "statute_text"
kind_value protocol_spec = "protocol_spec"
kind_value schema = "schema"
kind_value definition = "definition"
kind_value reference_dataset = "reference_dataset"
kind_value revocation = "revocation"

pub record Policy : Type 0 where
  pub min_signatures_by_kind : Dict String ℕ
  pub review_external_imports : Bool
  pub import_caps_by_key : Dict String ℕ
  pub canonical_form_registry : List CanonicalForm
  pub operator_key_fingerprint : String

pub record Crypto : Type 0 where
  pub sha256 : Bytes → String
  pub dumps : Manifest → Bytes
  pub b64decode : String → Option Bytes
  pub verify : String → String → Bytes → Bool

-- The text behind the first colon.
after_colon : String → Option String
after_colon text_end = none
after_colon (c ∷ₜ s) = if nat_beq (code c) 58 then some s else after_colon s

unfoldable pub strip_hash_prefix : String → String
unfolding after_colon
strip_hash_prefix s = elim (after_colon s) [ none ↦ s | some rest ↦ rest ]

-- `none` is the NotImplementedError.
unfoldable pub canonicalize_body : Bytes → CanonicalForm → Option Bytes
canonicalize_body body bytes_raw = some body
canonicalize_body body text_utf8_nfc = none
canonicalize_body body json_rfc8785 = none

pub data Reason : Type 0 where
  unsupported_algo unknown_signer malformed_base64 does_not_verify : Reason
  content_hash_mismatch manifest_hash_mismatch : Reason

-- `reason` is `none` where the signature is valid.
pub record SignatureResult : Type 0 where
  pub signature : Signature
  pub valid : Bool
  pub reason : Option Reason

pub record VerificationResult : Type 0 where
  pub signatures : List SignatureResult
  pub threshold_required : ℕ
  pub threshold_met : Bool
  pub manifest_hash_ok : Bool
  pub content_hash_ok : Bool

-- What is hashed of a manifest: the members `manifest_hash` and `signatures` are taken out.
unfoldable pub unsigned : Manifest → Manifest
unsigned m = record m { manifest_hash = ""; signatures = [] }

abbrev refused : Reason → Signature → SignatureResult
refused r s = record { signature = s; valid = false; reason = some r }

-- policy.min_signatures_by_kind.get(kind.value, 1)
unfoldable pub threshold_of : Policy → CartridgeKind → ℕ
unfolding kind_value
threshold_of policy kind = elim (get (kind_value kind) policy.min_signatures_by_kind) [
  | none ↦ 1
  | some n ↦ n
]

module _ (c : Crypto) where
  unfoldable pub compute_content_hash : Bytes → CanonicalForm → Option String
  unfolding canonicalize_body
  compute_content_hash body form = elim (canonicalize_body body form) [
    | none ↦ none
    | some raw ↦ some (join_text "sha256:" (c.sha256 raw))
  ]

  unfoldable pub compute_manifest_hash : Manifest → String
  unfolding unsigned
  compute_manifest_hash m = join_text "sha256:" (c.sha256 (c.dumps (unsigned m)))

  unfoldable pub verify_one_sig : String → TrustList → Signature → SignatureResult
  verify_one_sig hash trust s =
      if not (s.algo == "ed25519")
      then refused unsupported_algo s
      else elim (get s.key_id trust.keys) [
        | none ↦ refused unknown_signer s
        | some trusted ↦ elim (c.b64decode s.sig) [
          | none ↦ refused malformed_base64 s
          | some raw ↦
              if c.verify trusted.public_key hash raw
              then record { signature = s; valid = true; reason = none }
              else refused does_not_verify s
        ]
      ]

  unfoldable pub content_hash_ok_of : Manifest → Bytes → Bool
  content_hash_ok_of m body = elim (compute_content_hash body m.canonical_form) [
    | none ↦ false
    | some h ↦ m.content_hash == h
  ]

  unfoldable pub verify_manifest : Manifest → Bytes → TrustList → Policy → VerificationResult
  verify_manifest m body trust policy =
      let threshold = threshold_of policy m.kind in
      let content_ok = content_hash_ok_of m body in
      let manifest_ok = m.manifest_hash == compute_manifest_hash m in
      if not (content_ok && manifest_ok)
      then record {
        signatures =
            map (refused (if content_ok then manifest_hash_mismatch else content_hash_mismatch))
              m.signatures;
        threshold_required = threshold;
        threshold_met = false;
        manifest_hash_ok = manifest_ok;
        content_hash_ok = content_ok;
      }
      else (let results = map (verify_one_sig m.manifest_hash trust) m.signatures in
          record {
            signatures = results;
            threshold_required = threshold;
            threshold_met = leb threshold (count_if (λ r. r.valid) results);
            manifest_hash_ok = true;
            content_hash_ok = true;
          })

here_or_later :
    (b : Bool) (s t : String) (found later : Option String)
    → later ≡ elim found [ none ↦ after_colon t | some r ↦ some (join_text r t) ]
    → (if b then some (join_text s t) else later)
      ≡ elim (if b then some s else found) [ none ↦ after_colon t | some r ↦ some (join_text r t) ]
here_or_later true s t found later h = refl
here_or_later false s t found later h = h

after_colon-append :
    (s t : String)
    → after_colon (join_text s t)
      ≡ elim (after_colon s) [ none ↦ after_colon t | some r ↦ some (join_text r t) ]
unfolding after_colon
after_colon-append text_end t = ap after_colon (append.nil t)
after_colon-append (c ∷ₜ s) t =
    ap after_colon (append.cons c s t)
    ∙ here_or_later (nat_beq (code c) 58) s t (after_colon s) (after_colon (join_text s t))
        (after_colon-append s t)

-- A hash that was made is its prefix and its bare hash.
pub strip_hash_prefix-prefixed : (x : String) → strip_hash_prefix (join_text "sha256:" x) ≡ x
unfolding strip_hash_prefix
strip_hash_prefix-prefixed x =
    ap (λ o. elim o [ none ↦ join_text "sha256:" x | some rest ↦ rest ])
      (after_colon-append "sha256:" x)
    ∙ append.nil x
