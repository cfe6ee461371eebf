-- ===== src/Pins/Verify.antt =====
-- Which connections the pins let through: the check of a certificate and of a response
-- (maestro/security/cert_pinning.py, maestro/security/pinned_transport.py), and what taking a pin out does.
use maestro_orchestrator.Prelude.{
  String, ◌≡◌, refl, sym, ◌∙◌, Bool, true, false, not, Option, none, some, List, [], ◌∷◌, ◌==◌,
  ◌||◌, ◌&&◌, ◌↔◌, ◌≢◌, arith, text_keys, number_keys, beq_refl, inl, inr, Bool-cases, Option-cases,
  subst, some-inj,
}
use maestro_orchestrator.Prelude.Lists.{keep, contains, nonempty}
use maestro_orchestrator.Pins.{
  Pin, PinStore, pins_for, hashes, is_pinned, add_pin, put_bucket, remove_pin, passes,
  unreadable_certificate, raises, check_hash, verify_pin, Extracted, crashed, no_certificate,
  certificate, handle_async_request,
}
use maestro_orchestrator.Pins.Store.{
  pins_for-put_bucket, keep-hashes, keep_none, keep_shorter, contains-nonempty, keep_others,
  with_hash_lem, hashes-add_pin,
}

-- Removing a hash that is not there does nothing.
remove_absent :
    (host spki : String) (s : PinStore)
    → contains (hashes (pins_for host s)) spki ≡ false
    → remove_pin host spki s ≡ (s, false)
unfolding remove_pin
remove_absent host spki s h = ground (arith, keep_none spki (pins_for host s) h)

-- Removing a hash that is there puts the bucket back without it.
remove_present :
    (host spki : String) (s : PinStore)
    → contains (hashes (pins_for host s)) spki ≡ true
    → remove_pin host spki s
      ≡ (put_bucket host (keep (λ p. not (p.spki_sha256 == spki)) (pins_for host s)) s, true)
unfolding remove_pin
remove_present host spki s h =
    rw (contains-nonempty spki (pins_for host s) h, keep_shorter spki (pins_for host s) h) refl

-- Removal takes a hash out of the pins of a host and leaves the pins of every other host as they
-- are; it returns true exactly when the hash was there.
pub remove_pin_lem :
    (host spki other : String) (s : PinStore)
    → (contains (hashes (pins_for host (remove_pin host spki s).0)) spki ≡ false)
      × ((host == other) ≡ false → pins_for other (remove_pin host spki s).0 ≡ pins_for other s)
      × ((remove_pin host spki s).1 ≡ contains (hashes (pins_for host s)) spki)
remove_pin_lem host spki other s = elim (Bool-cases (contains (hashes (pins_for host s)) spki)) [
  | inr h ↦ rw (remove_absent host spki s h) (h, λ d. refl, sym h)
  | inl h ↦ rw (remove_present host spki s h) (
    rw (pins_for-put_bucket, beq_refl host) (keep-hashes spki (pins_for host s)),
    λ d. rw (pins_for-put_bucket, d) refl,
    sym h,
  )
]

added :
    (p : Pin) (s : PinStore)
    → contains (hashes (pins_for p.hostname (add_pin p s))) p.spki_sha256 ≡ true
added p s =
    rw (hashes-add_pin p s p.hostname, beq_refl p.hostname)
      (with_hash_lem (hashes (pins_for p.hostname s)) p.spki_sha256)

-- The new hash is there after the old one has been removed.
rotated :
    (p : Pin) (old : String) (s : PinStore)
    → (p.spki_sha256 == old) ≡ false
    → contains
        (hashes (pins_for p.hostname (remove_pin p.hostname old (add_pin p s)).0))
        p.spki_sha256
      ≡ true
rotated p old s differ =
    elim (Bool-cases (contains (hashes (pins_for p.hostname (add_pin p s))) old)) [
      | inr h ↦ rw (remove_absent p.hostname old (add_pin p s) h) (added p s)
      | inl h ↦
          rw
            (
              remove_present p.hostname old (add_pin p s) h,
              pins_for-put_bucket,
              beq_refl p.hostname,
            )
            (keep_others old p.spki_sha256 (pins_for p.hostname (add_pin p s)) differ (added p s))
    ]

module _ {Cert : Type 0} (spki : Cert → Option String) where
  check_hash_lem :
      (host presented : String) (require_pin : Bool) (s : PinStore) (ps : List Pin)
      → pins_for host s ≡ ps
      → (check_hash spki host presented require_pin s ≡ passes)
        ↔ ((contains (hashes ps) presented || (not (nonempty ps) && not require_pin)) ≡ true)
  unfolding check_hash
  check_hash_lem host presented require_pin s [] e =
      rw (e, check_hash) (λ h. ground arith, λ h. ground arith)
  check_hash_lem host presented require_pin s (p ∷ ps) e =
      rw (e, check_hash) (λ h. ground arith, λ h. ground arith)

  verify_unreadable :
      (cert : Cert) (host : String) (s : PinStore) (require_pin : Bool)
      → spki cert ≡ none
      → verify_pin spki cert host s require_pin ≡ raises unreadable_certificate
  unfolding verify_pin
  verify_unreadable cert host s require_pin e = rw (e, verify_pin) refl

  verify_readable :
      (cert : Cert) (host : String) (s : PinStore) (require_pin : Bool) (x : String)
      → spki cert ≡ some x
      → verify_pin spki cert host s require_pin ≡ check_hash spki host x require_pin s
  unfolding verify_pin
  verify_readable cert host s require_pin x e = rw (e, verify_pin) refl

  -- The check of a certificate passes exactly when its hash can be computed and is a pinned one of
  -- the host, or the host has no pins and none is required.
  pub verify_pin_passes :
      (cert : Cert) (host : String) (s : PinStore) (require_pin : Bool)
      → (verify_pin spki cert host s require_pin ≡ passes) ↔ (
          (presented : String) × (spki cert ≡ some presented)
          × ((contains (hashes (pins_for host s)) presented
                || (not (nonempty (pins_for host s)) && not require_pin))
              ≡ true))
  verify_pin_passes cert host s require_pin = elim (Option-cases (spki cert)) [
    | inl e ↦ (
      λ h. absurd (let q = verify_unreadable cert host s require_pin e in cc),
      λ r. absurd (let q = r.1 in cc),
    )
    | inr (x, e) ↦
        let same = check_hash_lem host x require_pin s (pins_for host s) refl in
        (
          λ h. (x, e, same.0 (let q = verify_readable cert host s require_pin x e in cc)),
          λ r.
              let q = verify_readable cert host s require_pin x e in
              let u = some-inj (sym e ∙ r.1) in q ∙ same.1 (rw u r.2),
        )
  ]

  -- When pins are required, the transport returns the response of a pinned host only if a
  -- certificate was extracted from it whose hash is one of the pins of the host.
  pub handle_async_request_pinned :
      (e : Extracted Cert) (host : String) (s : PinStore)
      → is_pinned host s ≡ true
      → handle_async_request spki e host s true ≡ passes
      → (cert : Cert) × (presented : String) × (e ≡ certificate cert)
        × (spki cert ≡ some presented)
        × (contains (hashes (pins_for host s)) presented ≡ true)
  unfolding handle_async_request
  handle_async_request_pinned crashed host s pinned ok = absurd (ground (arith))
  handle_async_request_pinned no_certificate host s pinned ok = absurd (ground (arith))
  handle_async_request_pinned (certificate c) host s pinned ok =
      let r = (verify_pin_passes c host s true).0 ok in (c, r.0, refl, r.1, ground (arith, r.2))

  -- When a key is rotated, its new pin being added and its old pin being removed after that, a
  -- certificate with the new hash passes and one with the old hash raises, pins required or not.
  pub rotation :
      (p : Pin) (old : String) (s : PinStore) (fresh stale : Cert) (require_pin : Bool)
      → (p.spki_sha256 == old) ≡ false
      → spki fresh ≡ some p.spki_sha256
      → spki stale ≡ some old
      → (verify_pin spki fresh p.hostname (remove_pin p.hostname old (add_pin p s)).0 require_pin
          ≡ passes)
        × (verify_pin spki stale p.hostname (remove_pin p.hostname old (add_pin p s)).0 require_pin
            ≢ passes)
  rotation p old s fresh stale require_pin differ f t =
      let kept = rotated p old s differ in
      let gone = (remove_pin_lem p.hostname old p.hostname (add_pin p s)).0 in
      (
        (verify_pin_passes fresh p.hostname (remove_pin p.hostname old (add_pin p s)).0
              require_pin).1
            (p.spki_sha256, f, ground (arith, kept)),
        λ h.
            let r =
              (verify_pin_passes stale p.hostname (remove_pin p.hostname old (add_pin p s)).0
                  require_pin).0
                h in
            let none_left =
              subst
                (λ z.
                  contains
                    (hashes (pins_for p.hostname (remove_pin p.hostname old (add_pin p s)).0)) z
                  ≡ false)
                (some-inj (sym t ∙ r.1)) gone in
            let some_pins =
              contains-nonempty p.spki_sha256
                (pins_for p.hostname (remove_pin p.hostname old (add_pin p s)).0) kept in
            let last = r.2 in ground (arith, none_left, some_pins, last),
      )
