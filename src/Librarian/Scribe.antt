-- ===== src/Librarian/Scribe.antt =====
-- `Scribe.anchor` of maestro/librarian/scribe.py. The parameter `private_sign` is the key store: the
-- base64 signature of a message with a key, or `none` where the key file is missing or has a wrong mode.
use maestro_orchestrator.Prelude.{
  ℕ, String, Bool, true, false, not, Option, none, some, List, [], ◌∷◌, ◌++◌, map, ◌==◌, text_keys,
  if◌then◌else◌,
}
use maestro_orchestrator.Prelude.Lists.{contains}
use maestro_orchestrator.Librarian.{
  Bytes, Signature, Manifest, Crypto, compute_content_hash, compute_manifest_hash,
}
pub mod Signers

pub data AnchorError : Type 0 where
  nothing_to_sign not_implemented content_changed manifest_changed : AnchorError
  already_signed key_unavailable : String → AnchorError

pub data Anchored : Type 0 where
  anchored : Manifest → Anchored
  fails : AnchorError → Anchored

module _ (private_sign : String → String → Option String) (now : String) where
  -- `ScribeKeyStore.sign`
  unfoldable pub sign : String → String → Option Signature
  sign kid hash = elim (private_sign kid hash) [
    | none ↦ none
    | some s ↦
        some (record { key_id = kid; algo = "ed25519"; sig = s; signed_at = now; role = "scribe" })
  ]

  -- The loop over the requested keys; `seen` are the key ids that have signed.
  unfoldable pub append_signatures :
      Manifest → List String → List String → List Signature → Anchored
  append_signatures m seen [] signatures = anchored (record m { signatures = signatures })
  append_signatures m seen (kid ∷ kids) signatures =
      if contains seen kid then fails (already_signed kid) else elim (sign kid m.manifest_hash) [
        | none ↦ fails (key_unavailable kid)
        | some s ↦ append_signatures m (kid ∷ seen) kids (signatures ++ s ∷ [])
      ]

  module _ (c : Crypto) where
    -- The hashes of a manifest without signatures, bound from the body and the other fields.
    unfoldable pub bind_hashes : Manifest → String → Manifest
    bind_hashes m content_hash =
        let sealed = record m { content_hash = content_hash; manifest_hash = "" } in
        record sealed { manifest_hash = compute_manifest_hash c sealed }

    unfoldable pub seal : Manifest → String → Anchored
    seal m content_hash = elim m.signatures [
      | [] ↦ anchored (bind_hashes m content_hash)
      | _ ∷ _ ↦
          if not (m.content_hash == content_hash)
          then fails content_changed
          else if not (m.manifest_hash == compute_manifest_hash c m)
          then fails manifest_changed
          else anchored m
    ]

    unfoldable pub anchor : Manifest → Bytes → List String → Anchored
    anchor m body [] = fails nothing_to_sign
    anchor m body (kid ∷ kids) = elim (compute_content_hash c body m.canonical_form) [
      | none ↦ fails not_implemented
      | some content_hash ↦ elim (seal m content_hash) [
        | fails e ↦ fails e
        | anchored sealed ↦
            append_signatures sealed (map (λ s. s.key_id) sealed.signatures) (kid ∷ kids)
              sealed.signatures
      ]
    ]
