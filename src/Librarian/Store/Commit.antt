-- ===== src/Librarian/Store/Commit.antt =====
-- What `commit` of maestro/librarian/store.py leaves for `load`, `load_body` and `head`.
use maestro_orchestrator.Prelude.{
  String, ◌≡◌, refl, ap, sym, ◌∙◌, true, some, ◌==◌, text_keys, inl, inr, Bool-cases, Option-cases,
  some-inj, eq_iff, subst,
}
use maestro_orchestrator.Prelude.Dict.{get, get-set, get-set_self}
use maestro_orchestrator.Librarian.{
  Bytes, Manifest, TrustList, Policy, Crypto, strip_hash_prefix, verify_manifest,
  compute_content_hash, strip_hash_prefix-prefixed, CanonicalForm, bytes_raw, text_utf8_nfc,
  json_rfc8785,
}
use maestro_orchestrator.Librarian.Threshold.{threshold_met_iff}
use maestro_orchestrator.Librarian.Store.{
  Files, Librarian, loaded, committed, load, load_from, load_verified, load_body, head, write,
  commit,
}

committed-inj : {a b : Librarian} → committed a ≡ committed b → a ≡ b
committed-inj h = cc

loaded-inj : {a b : Manifest} → loaded a ≡ loaded b → a ≡ b
loaded-inj h = cc

module _ (c : Crypto) where
  -- What a commit that succeeds has found and done.
  abbrev Done : Manifest → Bytes → Librarian → Librarian → Type 0
  Done m body l l' =
      (files : Files) × (trust : TrustList) × (l.root ≡ some files)
      × (l.trust ≡ some trust)
      × ((verify_manifest c m body trust l.policy).threshold_met ≡ true)
      × (l' ≡ record l { root = some (write m body files) })

  commit-Done :
      (m : Manifest) (body : Bytes) (l l' : Librarian)
      → commit c m body l ≡ committed l'
      → Done m body l l'
  unfolding commit
  commit-Done m body l l' h = elim (Option-cases l.root) [
    | inl e ↦ let bad = rw (e, commit) at h in absurd (cc)
    | inr (files, e) ↦ elim (Option-cases l.trust) [
      | inl t ↦ let bad = rw (e, t, commit) at h in absurd (cc)
      | inr (trust, t) ↦ elim (Bool-cases (verify_manifest c m body trust l.policy).threshold_met) [
        | inr v ↦ let bad = rw (e, t, v, commit) at h in absurd (cc)
        | inl v ↦
            let good = rw (e, t, v, commit) at h in
            (files, trust, e, t, v, sym (committed-inj good))
      ]
    ]
  ]

  load_hit :
      (hash : String) (files : Files) (trust : TrustList) (policy : Policy) (m : Manifest)
      (body : Bytes)
      → get (strip_hash_prefix hash) files.manifests ≡ some m
      → get (strip_hash_prefix m.content_hash) files.bodies ≡ some body
      → (verify_manifest c m body trust policy).threshold_met ≡ true
      → load c hash (record { root = some files; trust = some trust; policy = policy }) ≡ loaded m
  unfolding load load_from load_verified
  load_hit hash files trust policy m body found has_body ok =
      rw (found, has_body, ok, load_from, load_verified) refl

  -- After a commit that succeeds, the manifest is loaded under its hash, it is the head of its
  -- cartridge, and its body is there under its content hash.
  pub commit_then_load :
      (m : Manifest) (body : Bytes) (l l' : Librarian)
      → commit c m body l ≡ committed l'
      → (load c m.manifest_hash l' ≡ loaded m)
        × (head m.cartridge_id l' ≡ some m)
        × (load_body m.content_hash l' ≡ some body)
  unfolding head load_body write
  commit_then_load m body l l' h =
      let (files, trust, r, t, ok, e) = commit-Done m body l l' h in
      let bare = strip_hash_prefix m.manifest_hash in
      let has = get-set_self bare m files.manifests in
      let has_body = get-set_self (strip_hash_prefix m.content_hash) body files.bodies in
      let is_head = get-set_self m.cartridge_id bare files.heads in
      rw e (
        rw t (load_hit m.manifest_hash (write m body files) trust l.policy m body has has_body ok),
        rw (is_head, has, head, write) refl,
        has_body,
      )

  -- What `load` has found when it has returned a manifest.
  abbrev Found : String → Librarian → Manifest → Type 0
  Found hash l m =
      (files : Files) × (trust : TrustList) × (body : Bytes) × (l.root ≡ some files)
      × (l.trust ≡ some trust)
      × (get (strip_hash_prefix hash) files.manifests ≡ some m)
      × (get (strip_hash_prefix m.content_hash) files.bodies ≡ some body)
      × ((verify_manifest c m body trust l.policy).threshold_met ≡ true)

  load-Found :
      (hash : String) (l : Librarian) (m : Manifest) → load c hash l ≡ loaded m → Found hash l m
  unfolding load load_from load_verified
  load-Found hash l m h = elim (Option-cases l.root) [
    | inl e ↦ let bad = rw (e, load) at h in absurd (cc)
    | inr (files, e) ↦ elim (Option-cases (get (strip_hash_prefix hash) files.manifests)) [
      | inl g ↦ let bad = rw (e, g, load, load_from) at h in absurd (cc)
      | inr (n, g) ↦ elim (Option-cases (get (strip_hash_prefix n.content_hash) files.bodies)) [
        | inl b ↦ let bad = rw (e, g, b, load, load_from) at h in absurd (cc)
        | inr (body, b) ↦ elim (Option-cases l.trust) [
          | inl t ↦ let bad = rw (e, g, b, t, load, load_from) at h in absurd (cc)
          | inr (trust, t) ↦
              elim (Bool-cases (verify_manifest c n body trust l.policy).threshold_met) [
                | inr v ↦
                    let bad = rw (e, g, b, t, v, load, load_from, load_verified) at h in absurd (cc)
                | inl v ↦
                    let same =
                      loaded-inj (rw (e, g, b, t, v, load, load_from, load_verified) at h) in
                    subst (λ k. Found hash l k) same (files, trust, body, e, t, g, b, v)
              ]
        ]
      ]
    ]
  ]

  -- A content hash stands for its body: another body with the same digest has it as well.
  content_hash_lem :
      (form : CanonicalForm) (body : Bytes) (hash : String)
      → compute_content_hash c body form ≡ some hash
      → (strip_hash_prefix hash ≡ c.sha256 body)
        × ((other : Bytes)
            → c.sha256 other ≡ c.sha256 body
            → compute_content_hash c other form ≡ some hash)
  unfolding compute_content_hash
  content_hash_lem bytes_raw body hash h = (
    ap strip_hash_prefix (sym (some-inj h)) ∙ strip_hash_prefix-prefixed (c.sha256 body),
    λ other e. rw e h,
  )
  content_hash_lem text_utf8_nfc body hash h = absurd (cc)
  content_hash_lem json_rfc8785 body hash h = absurd (cc)

  -- A manifest that verifies with a body verifies with every body of the same bare content hash.
  verifies_again :
      (m n : Manifest) (body other : Bytes) (trust : TrustList) (policy : Policy)
      → (verify_manifest c m body trust policy).threshold_met ≡ true
      → (verify_manifest c n other trust policy).threshold_met ≡ true
      → strip_hash_prefix m.content_hash ≡ strip_hash_prefix n.content_hash
      → (verify_manifest c m other trust policy).threshold_met ≡ true
  verifies_again m n body other trust policy v w same =
      let (content, hash, count) = (threshold_met_iff c m body trust policy).0 v in
      let (content', _, _) = (threshold_met_iff c n other trust policy).0 w in
      let (bare, again) = content_hash_lem m.canonical_form body m.content_hash content in
      let (bare', _) = content_hash_lem n.canonical_form other n.content_hash content' in
      (threshold_met_iff c m other trust policy).1
        (again other (sym bare' ∙ sym same ∙ bare), hash, count)

  -- A commit that succeeds leaves a manifest to be loaded under every hash that had one: neither the
  -- manifest nor the body that it writes can spoil another.
  pub commit_keeps_loads :
      (m : Manifest) (body : Bytes) (l l' : Librarian) (hash : String) (old : Manifest)
      → commit c m body l ≡ committed l'
      → load c hash l ≡ loaded old
      → (now : Manifest) × (load c hash l' ≡ loaded now)
  unfolding write
  commit_keeps_loads m body l l' hash old h was =
      let (files, trust, r, t, ok, e) = commit-Done m body l l' h in
      let (files', trust', body', r', t', g, b, v) = load-Found hash l old was in
      let same_files : files' ≡ files = some-inj (sym r' ∙ r) in
      let same_trust : trust' ≡ trust = some-inj (sym t' ∙ t) in
      let g' : get (strip_hash_prefix hash) files.manifests ≡ some old = rw (sym same_files) g in
      let b' : get (strip_hash_prefix old.content_hash) files.bodies ≡ some body' =
        rw (sym same_files) b in
      let v' : (verify_manifest c old body' trust l.policy).threshold_met ≡ true =
        rw (sym same_trust) v in
      let bare = strip_hash_prefix m.manifest_hash in
      let bare_body = strip_hash_prefix m.content_hash in
      let after : (now : Manifest) (its : Bytes)
          → get (strip_hash_prefix hash) (write m body files).manifests ≡ some now
          → get (strip_hash_prefix now.content_hash) (write m body files).bodies ≡ some its
          → (verify_manifest c now its trust l.policy).threshold_met ≡ true
          → load c hash l' ≡ loaded now =
        λ now its x y z.
          rw (e, t) (load_hit hash (write m body files) trust l.policy now its x y z) in
      elim (Bool-cases (bare == strip_hash_prefix hash)) [
        | inl q ↦ (
          m,
          after m body (get-set bare (strip_hash_prefix hash) m files.manifests ∙ rw q refl)
              (get-set_self bare_body body files.bodies) ok,
        )
        | inr q ↦
            let kept = get-set bare (strip_hash_prefix hash) m files.manifests ∙ rw q g' in
            let body_at =
              get-set bare_body (strip_hash_prefix old.content_hash) body files.bodies in
            (
              old,
              elim (Bool-cases (bare_body == strip_hash_prefix old.content_hash)) [
                | inl p ↦ after old body kept (body_at ∙ rw p refl) (
                    verifies_again old m body' body trust l.policy v' ok
                      (sym ((eq_iff bare_body (strip_hash_prefix old.content_hash)).0 p)))
                | inr p ↦ after old body' kept (body_at ∙ rw p b') v'
              ],
            )
      ]
