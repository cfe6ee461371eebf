-- ===== src/Librarian/Threshold.antt =====
-- What `verify_manifest` of maestro/librarian/verification.py decides.
use maestro_orchestrator.Prelude.{
  ℕ, zero, suc, ◌+◌, ◌≤◌, String, ◌≡◌, ◌↔◌, refl, ap, sym, true, ◌&&◌, some, List, [], ◌∷◌, map,
  ◌==◌, text_keys, eq_iff, arith, if◌then◌else◌, inl, inr, Bool-cases, Option-cases, some-inj,
}
use maestro_orchestrator.Prelude.Lists.{count_if}
use maestro_orchestrator.Prelude.Dict.{get}
use maestro_orchestrator.Librarian.{
  Bytes, Signature, Manifest, TrustedKey, TrustList, Policy, Crypto, compute_content_hash,
  compute_manifest_hash, verify_one_sig, threshold_of, content_hash_ok_of, verify_manifest,
  SignatureResult,
}

module _ (c : Crypto) where
  -- A signature of a trusted key that verifies under the hash.
  abbrev pub Verifies : String → TrustList → Signature → Type 0
  Verifies hash trust s =
      (s.algo ≡ "ed25519")
      × (k : TrustedKey) × (raw : Bytes) × (get s.key_id trust.keys ≡ some k)
      × (c.b64decode s.sig ≡ some raw)
      × (c.verify k.public_key hash raw ≡ true)

  -- A signature counts as valid exactly when its algorithm is ed25519, its key id is trusted, and its
  -- bytes verify under the public key of that id.
  pub verify_one_sig_iff :
      (hash : String) (trust : TrustList) (s : Signature)
      → ((verify_one_sig c hash trust s).valid ≡ true) ↔ Verifies hash trust s
  unfolding verify_one_sig
  verify_one_sig_iff hash trust s = elim (Bool-cases (s.algo == "ed25519")) [
    | inr other ↦
        rw (other, verify_one_sig)
          (λ h. absurd (cc), λ v. absurd (let e = (eq_iff s.algo "ed25519").1 v.0 in cc))
    | inl algo ↦ elim (Option-cases (get s.key_id trust.keys)) [
      | inl e ↦ rw (algo, e, verify_one_sig) (λ h. absurd (cc), λ v. absurd (let q = v.3 in cc))
      | inr (k, e) ↦ elim (Option-cases (c.b64decode s.sig)) [
        | inl b ↦
            rw (algo, e, b, verify_one_sig) (λ h. absurd (cc), λ v. absurd (let q = v.4 in cc))
        | inr (raw, b) ↦
            rw (algo, e, b, verify_one_sig)
              (
                λ h. ((eq_iff s.algo "ed25519").0 algo, k, raw, refl, refl, ground arith),
                λ v.
                    let (a, k', raw', p, q, ok) = v in
                    let same_key = some-inj p in
                    let same_raw = some-inj q in
                    let ok' : c.verify k.public_key hash raw ≡ true = rw (same_key, same_raw) ok in
                    rw ok' refl,
              )
      ]
    ]
  ]

  -- How many of the signatures count as valid.
  abbrev pub valid_count : String → TrustList → List Signature → ℕ
  valid_count hash trust ss = count_if (λ s. (verify_one_sig c hash trust s).valid) ss

  count_if-map :
      (hash : String) (trust : TrustList) (ss : List Signature)
      → count_if (λ (r : SignatureResult). r.valid) (map (verify_one_sig c hash trust) ss)
        ≡ valid_count hash trust ss
  count_if-map hash trust [] = refl
  count_if-map hash trust (s ∷ ss) =
      ap (λ n. (if (verify_one_sig c hash trust s).valid then 1 else 0) + n)
        (count_if-map hash trust ss)

  content_hash_ok_iff :
      (m : Manifest) (body : Bytes)
      → (content_hash_ok_of c m body ≡ true)
        ↔ (compute_content_hash c body m.canonical_form ≡ some m.content_hash)
  unfolding content_hash_ok_of
  content_hash_ok_iff m body = elim (Option-cases (compute_content_hash c body m.canonical_form)) [
    | inl e ↦ rw (e, content_hash_ok_of) (λ h. absurd (cc), λ h. absurd (cc))
    | inr (h, e) ↦
        rw (e, content_hash_ok_of)
          (
            λ ok. ap some (sym ((eq_iff m.content_hash h).0 ok)),
            λ same. (eq_iff m.content_hash h).1 (sym (some-inj same)),
          )
  ]

  -- The threshold is met exactly when the body has the content hash of the manifest, the manifest has
  -- its own hash, and the policy asks for no more signatures than are valid.
  pub threshold_met_iff :
      (m : Manifest) (body : Bytes) (trust : TrustList) (policy : Policy)
      → ((verify_manifest c m body trust policy).threshold_met ≡ true) ↔ (
          (compute_content_hash c body m.canonical_form ≡ some m.content_hash)
          × (m.manifest_hash ≡ compute_manifest_hash c m)
          × (threshold_of policy m.kind ≤ valid_count m.manifest_hash trust m.signatures))
  unfolding verify_manifest
  threshold_met_iff m body trust policy =
      let (to, from) = content_hash_ok_iff m body in
      let (same, back) = eq_iff m.manifest_hash (compute_manifest_hash c m) in
      let counts = count_if-map m.manifest_hash trust m.signatures in
      elim (Bool-cases
        (content_hash_ok_of c m body && (m.manifest_hash == compute_manifest_hash c m))) [
          | inr bad ↦
              rw bad (
                λ h. absurd (cc),
                λ h. absurd (let a = from h.0 in let b = back h.1 in ground arith),
              )
          | inl ok ↦
              rw (ok, counts)
                (
                  λ h. (to (ground arith), same (ground arith), ground arith),
                  λ h. let n = h.2 in ground arith,
                )
        ]

  abbrev pub copies : ℕ → Signature → List Signature
  copies zero s = []
  copies (suc n) s = s ∷ copies n s

  valid_count-copies :
      (hash : String) (trust : TrustList) (s : Signature) (n : ℕ)
      → (verify_one_sig c hash trust s).valid ≡ true
      → valid_count hash trust (copies n s) ≡ n
  valid_count-copies hash trust s zero v = refl
  valid_count-copies hash trust s (suc n) v =
      rw (v, valid_count-copies hash trust s n v) (omega arith)

  -- The count is of signatures and not of signers: a manifest with the right hashes and enough copies
  -- of one valid signature meets every threshold.
  pub one_signer_meets_threshold :
      (m : Manifest) (body : Bytes) (trust : TrustList) (policy : Policy) (s : Signature) (n : ℕ)
      → compute_content_hash c body m.canonical_form ≡ some m.content_hash
      → m.manifest_hash ≡ compute_manifest_hash c m
      → Verifies m.manifest_hash trust s
      → threshold_of policy m.kind ≤ n
      → (verify_manifest c (record m { signatures = copies n s }) body trust policy).threshold_met
        ≡ true
  unfolding compute_manifest_hash
  one_signer_meets_threshold m body trust policy s n content same v enough =
      let m' : Manifest = record m { signatures = copies n s } in
      let count =
        valid_count-copies m.manifest_hash trust s n
          ((verify_one_sig_iff m.manifest_hash trust s).1 v) in
      (threshold_met_iff m' body trust policy).1 (content, same, rw count enough)
