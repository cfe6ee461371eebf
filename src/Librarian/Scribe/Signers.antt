-- ===== src/Librarian/Scribe/Signers.antt =====
-- What `anchor` of maestro/librarian/scribe.py returns, and that `verify_manifest` takes it.
use maestro_orchestrator.Prelude.{
  suc, ◌≤◌, String, ◌≡◌, refl, ap, sym, ◌∙◌, subst, true, false, Option, some, List, [], ◌∷◌, ◌++◌,
  map, ◌==◌, text_keys, eq_iff, arith, inl, inr, Bool-cases, Option-cases,
}
use maestro_orchestrator.Prelude.Lists.{length, All, contains}
use maestro_orchestrator.Prelude.Dict.{get}
use maestro_orchestrator.Librarian.{
  Bytes, Signature, Manifest, TrustedKey, TrustList, Policy, Crypto, compute_content_hash,
  compute_manifest_hash, threshold_of, verify_manifest,
}
use maestro_orchestrator.Librarian.Threshold.{threshold_met_iff, valid_count, verify_one_sig_iff}
use maestro_orchestrator.Librarian.Scribe.{
  Anchored, anchored, fails, sign, append_signatures, bind_hashes, seal, anchor,
}

-- None of the keys has signed, and none comes twice.
abbrev pub AllFresh : List String → List String → Type 0
AllFresh seen [] = Unit
AllFresh seen (k ∷ ks) = (contains seen k ≡ false) × AllFresh (k ∷ seen) ks

anchored-inj : {a b : Manifest} → anchored a ≡ anchored b → a ≡ b
anchored-inj h = cc

append_assoc : (a b : List Signature) (s : Signature) → (a ++ s ∷ []) ++ b ≡ a ++ s ∷ b
append_assoc [] b s = refl
append_assoc (x ∷ a) b s = ap (λ l. x ∷ l) (append_assoc a b s)

append_none : (a : List Signature) → a ++ [] ≡ a
append_none [] = refl
append_none (x ∷ a) = ap (λ l. x ∷ l) (append_none a)

module _ (private_sign : String → String → Option String) (now : String) where
  -- A signature that the key store has made for the hash.
  abbrev pub Signed : String → Signature → Type 0
  Signed hash s = (s.algo ≡ "ed25519") × (private_sign s.key_id hash ≡ some s.sig)

  -- The new signatures of a loop that has gone through.
  abbrev Extends : Manifest → List String → List String → List Signature → Manifest → Type 0
  Extends m seen kids old m' =
      (new : List Signature) × (m' ≡ record m { signatures = old ++ new })
      × (map (λ s. s.key_id) new ≡ kids)
      × All (Signed m.manifest_hash) new
      × AllFresh seen kids

  append_signatures_lem :
      (m m' : Manifest) (seen kids : List String) (old : List Signature)
      → append_signatures private_sign now m seen kids old ≡ anchored m'
      → Extends m seen kids old m'
  unfolding append_signatures sign
  append_signatures_lem m m' seen [] old h = (
    [],
    sym (anchored-inj h) ∙ ap (λ l. record m { signatures = l }) (sym (append_none old)),
    refl,
    tt,
    tt,
  )
  append_signatures_lem m m' seen (kid ∷ kids) old h = elim (Bool-cases (contains seen kid)) [
    | inl e ↦ let bad = rw (e, append_signatures) at h in absurd (cc)
    | inr e ↦ elim (Option-cases (private_sign kid m.manifest_hash)) [
      | inl p ↦ let bad = rw (e, p, append_signatures, sign) at h in absurd (cc)
      | inr (sig, p) ↦
          let s : Signature = record {
            key_id = kid;
            algo = "ed25519";
            sig = sig;
            signed_at = now;
            role = "scribe";
          } in
          let rest : append_signatures private_sign now m (kid ∷ seen) kids (old ++ s ∷ [])
              ≡ anchored m' =
            rw (e, p, append_signatures, sign) at h in
          let (new, is, ids, signed, fresh) =
            append_signatures_lem m m' (kid ∷ seen) kids (old ++ s ∷ []) rest in
          (
            s ∷ new,
            is ∙ ap (λ l. record m { signatures = l }) (append_assoc old new s),
            ap (λ l. kid ∷ l) ids,
            ((refl, p), signed),
            (e, fresh),
          )
    ]
  ]

  module _ (c : Crypto) where
    abbrev Sealed : Manifest → String → Manifest → Type 0
    Sealed m content s =
        (s.content_hash ≡ content)
        × (s.manifest_hash ≡ compute_manifest_hash c s)
        × (s.signatures ≡ m.signatures)
        × (s.canonical_form ≡ m.canonical_form)
        × (s.kind ≡ m.kind)

    seal_lem :
        (m s : Manifest) (content : String) (old : List Signature)
        → m.signatures ≡ old
        → seal private_sign now c m content ≡ anchored s
        → Sealed m content s
    unfolding seal bind_hashes compute_manifest_hash
    seal_lem m s content [] e h =
        let is = anchored-inj (rw (e, seal) at h) in
        subst (λ x. Sealed m content x) is (refl, refl, refl, refl, refl)
    seal_lem m s content (x ∷ xs) e h = elim (Bool-cases (m.content_hash == content)) [
      | inr d ↦ let bad = rw (e, d, seal) at h in absurd (cc)
      | inl d ↦ elim (Bool-cases (m.manifest_hash == compute_manifest_hash c m)) [
        | inr b ↦ let bad = rw (e, d, b, seal) at h in absurd (cc)
        | inl b ↦
            let is = anchored-inj (rw (e, d, b, seal) at h) in
            subst (λ x. Sealed m content x) is
              (
                (eq_iff m.content_hash content).0 d,
                (eq_iff m.manifest_hash (compute_manifest_hash c m)).0 b,
                refl,
                refl,
                refl,
              )
      ]
    ]

    -- What a manifest that was anchored is, against the one that was pending.
    abbrev pub IsAnchored : Manifest → Bytes → List String → Manifest → Type 0
    IsAnchored m body kids m' =
        (compute_content_hash c body m'.canonical_form ≡ some m'.content_hash)
        × (m'.manifest_hash ≡ compute_manifest_hash c m')
        × (m'.kind ≡ m.kind)
        × AllFresh (map (λ s. s.key_id) m.signatures) kids
        × (new : List Signature) × (m'.signatures ≡ m.signatures ++ new)
        × (map (λ s. s.key_id) new ≡ kids)
        × All (Signed m'.manifest_hash) new

    seal_then_append :
        (m s m' : Manifest) (body : Bytes) (content : String) (kids : List String)
        → compute_content_hash c body m.canonical_form ≡ some content
        → Sealed m content s
        → append_signatures private_sign now s (map (λ x. x.key_id) s.signatures) kids s.signatures
          ≡ anchored m'
        → IsAnchored m body kids m'
    unfolding compute_manifest_hash
    seal_then_append m s m' body content kids e (q, own, sigs, form, kind) h =
        let (new, is, ids, signed, fresh) =
          append_signatures_lem s m' (map (λ x. x.key_id) s.signatures) kids s.signatures h in
        rw is (
          ap (λ f. compute_content_hash c body f) form ∙ e ∙ ap some (sym q),
          own,
          kind,
          subst (λ (l : List Signature). AllFresh (map (λ x. x.key_id) l) kids) sigs fresh,
          new,
          ap (λ l. l ++ new) sigs,
          ids,
          signed,
        )

    -- If `anchor` succeeds, the manifest has the content hash of the body and its own hash; none of
    -- the requested keys had signed or comes twice; and behind the old signatures stands one for each
    -- requested key, in their order, that the key store has made for the manifest hash.
    pub anchor_lem :
        (m m' : Manifest) (body : Bytes) (kids : List String)
        → anchor private_sign now c m body kids ≡ anchored m'
        → IsAnchored m body kids m'
    unfolding anchor
    anchor_lem m m' body [] h = absurd (cc)
    anchor_lem m m' body (kid ∷ kids) h =
        elim (Option-cases (compute_content_hash c body m.canonical_form)) [
          | inl e ↦ let bad = rw (e, anchor) at h in absurd (cc)
          | inr (content, e) ↦ sealed_case content e (seal private_sign now c m content) refl
        ]
      where
        sealed_case :
            (content : String)
            → compute_content_hash c body m.canonical_form ≡ some content
            → (a : Anchored) → seal private_sign now c m content ≡ a
            → IsAnchored m body (kid ∷ kids) m'
        sealed_case content e (fails x) q = let bad = rw (e, q, anchor) at h in absurd (cc)
        sealed_case content e (anchored s) q =
            let last : append_signatures private_sign now s (map (λ x. x.key_id) s.signatures)
                  (kid ∷ kids) s.signatures
                ≡ anchored m' =
              rw (e, q, anchor) at h in
            seal_then_append m s m' body content (kid ∷ kids) e
              (seal_lem m s content m.signatures refl q) last

    -- A key is trusted, and what the key store signs with it verifies under its public key.
    abbrev pub KeyWorks : TrustList → String → Type 0
    KeyWorks trust kid =
        (k : TrustedKey) × (get kid trust.keys ≡ some k)
        × ((hash sig : String)
            → private_sign kid hash ≡ some sig
            → (raw : Bytes) × (c.b64decode sig ≡ some raw)
              × (c.verify k.public_key hash raw ≡ true))

    All-valid :
        (hash : String) (trust : TrustList) (ss : List Signature)
        → All (KeyWorks trust) (map (λ s. s.key_id) ss)
        → All (Signed hash) ss
        → valid_count c hash trust ss ≡ length ss
    All-valid hash trust [] works signed = refl
    All-valid hash trust (s ∷ ss) works signed =
        let (k, known, good) = works.0 in
        let (algo, made) = signed.0 in
        let (raw, decoded, ok) = good hash s.sig made in
        let v = (verify_one_sig_iff c hash trust s).1 (algo, k, raw, known, decoded, ok) in
        rw (v, All-valid hash trust ss works.1 signed.1) (omega arith)

    length-ids : (ss : List Signature) → length (map (λ s. s.key_id) ss) ≡ length ss
    length-ids [] = refl
    length-ids (s ∷ ss) = ap suc (length-ids ss)

    -- A manifest without signatures that is anchored with trusted keys that work, at least as many as
    -- the policy asks for, passes the verification.
    pub anchored_manifest_verifies :
        (m m' : Manifest) (body : Bytes) (kids : List String) (trust : TrustList) (policy : Policy)
        → m.signatures ≡ []
        → All (KeyWorks trust) kids
        → threshold_of policy m.kind ≤ length kids
        → anchor private_sign now c m body kids ≡ anchored m'
        → (verify_manifest c m' body trust policy).threshold_met ≡ true
    anchored_manifest_verifies m m' body kids trust policy none_yet works enough h =
        let (content, own, kind, fresh, new, sigs, ids, signed) = anchor_lem m m' body kids h in
        let all : m'.signatures ≡ new = sigs ∙ ap (λ l. l ++ new) none_yet in
        let counted = All-valid m'.manifest_hash trust new (rw ids works) signed in
        let same_length : length new ≡ length kids =
          sym (length-ids new) ∙ ap (λ l. length l) ids in
        (threshold_met_iff c m' body trust policy).1
          (content, own, rw (all, counted, kind) (rw same_length enough))
