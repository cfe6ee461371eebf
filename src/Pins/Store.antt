-- ===== src/Pins/Store.antt =====
-- Adding and removing pins (maestro/security/cert_pinning.py).
use maestro_orchestrator.Prelude.{
  suc, String, ◌≡◌, refl, ap, sym, ◌∙◌, true, false, not, List, [], ◌∷◌, ◌++◌, ◌==◌, ◌||◌, arith,
  if◌then◌else◌, text_keys, beq_refl, eq_iff, inl, inr, Bool-cases, nat_beq,
}
use maestro_orchestrator.Prelude.Lists.{length, any, keep, contains, nonempty, length-keep-le}
use maestro_orchestrator.Prelude.Dict.{Dict, set, delete, get-set, get-delete}
use maestro_orchestrator.Pins.{Pin, PinStore, pins_for, hashes, add_pin, put_bucket}

any-hashes :
    (x : String) (ps : List Pin) → any (λ q. q.spki_sha256 == x) ps ≡ contains (hashes ps) x
any-hashes x [] = refl
any-hashes x (p ∷ ps) = ap (λ b. (p.spki_sha256 == x) || b) (any-hashes x ps)

-- The hashes of a bucket with one more, unless it is there.
abbrev pub with_hash : List String → String → List String
with_hash hs h = if contains hs h then hs else hs ++ h ∷ []

hashes-append : (ps qs : List Pin) → hashes (ps ++ qs) ≡ hashes ps ++ hashes qs
hashes-append [] qs = refl
hashes-append (p ∷ ps) qs = ap (λ l. p.spki_sha256 ∷ l) (hashes-append ps qs)

pub pins_for-set :
    (k host : String) (v : List Pin) (d : Dict String (List Pin)) (m : Dict String String)
    → pins_for host (record { pins_by_host = set k v d; metadata = m })
      ≡ (if k == host then v else pins_for host (record { pins_by_host = d; metadata = m }))
unfolding pins_for
pins_for-set k host v d m = ground (arith, get-set k host v d)

pins_for-delete :
    (k host : String) (d : Dict String (List Pin)) (m : Dict String String)
    → pins_for host (record { pins_by_host = delete k d; metadata = m })
      ≡ (if k == host then [] else pins_for host (record { pins_by_host = d; metadata = m }))
unfolding pins_for
pins_for-delete k host d m = ground (arith, get-delete k host d)

-- The hashes of a bucket that a pin has been added to.
bucket_with :
    (p : Pin) (ps : List Pin)
    → hashes (if any (λ q. q.spki_sha256 == p.spki_sha256) ps then ps else ps ++ p ∷ [])
      ≡ with_hash (hashes ps) p.spki_sha256
bucket_with p ps = elim (Bool-cases (contains (hashes ps) p.spki_sha256)) [
  | inl q ↦ rw (any-hashes p.spki_sha256 ps, q) refl
  | inr q ↦ rw (any-hashes p.spki_sha256 ps, q) (hashes-append ps (p ∷ []))
]

-- The hashes under a host when a pin has been added.
pub hashes-add_pin :
    (p : Pin) (s : PinStore) (host : String)
    → hashes (pins_for host (add_pin p s)) ≡ (
        if p.hostname == host
        then with_hash (hashes (pins_for p.hostname s)) p.spki_sha256
        else hashes (pins_for host s))
unfolding add_pin
hashes-add_pin p s host = elim (Bool-cases (p.hostname == host)) [
  | inl q ↦ rw (pins_for-set, q) (bucket_with p (pins_for p.hostname s))
  | inr q ↦ rw (pins_for-set, q) refl
]

pub keep-hashes :
    (x : String) (ps : List Pin)
    → contains (hashes (keep (λ p. not (p.spki_sha256 == x)) ps)) x ≡ false
keep-hashes x [] = refl
keep-hashes x (p ∷ ps) = ground (arith, keep-hashes x ps)

-- A filter that takes nothing out found nothing.
pub keep_all :
    (x : String) (ps : List Pin)
    → length (keep (λ p. not (p.spki_sha256 == x)) ps) ≡ length ps
    → contains (hashes ps) x ≡ false
keep_all x [] h = refl
keep_all x (p ∷ ps) h = elim (Bool-cases (p.spki_sha256 == x)) [
  | inl q ↦ absurd (let k = length-keep-le (λ t. not (t.spki_sha256 == x)) ps in ground (arith))
  | inr q ↦ rw q (keep_all x ps (ground arith))
]

pub pins_for-put_bucket :
    (host other : String) (ps : List Pin) (s : PinStore)
    → pins_for other (put_bucket host ps s) ≡ (if host == other then ps else pins_for other s)
unfolding put_bucket
pins_for-put_bucket host other [] s = pins_for-delete host other s.pins_by_host s.metadata
pins_for-put_bucket host other (p ∷ ps) s =
    pins_for-set host other (p ∷ ps) s.pins_by_host s.metadata

-- A filter for a hash that is not there takes nothing out.
pub keep_none :
    (x : String) (ps : List Pin)
    → contains (hashes ps) x ≡ false
    → length (keep (λ p. not (p.spki_sha256 == x)) ps) ≡ length ps
keep_none x [] h = refl
keep_none x (p ∷ ps) h = elim (Bool-cases (p.spki_sha256 == x)) [
  | inl q ↦ absurd (ground (arith))
  | inr q ↦ rw q (ap suc (keep_none x ps (ground arith)))
]

-- A filter for a hash that is there takes something out.
pub keep_shorter :
    (x : String) (ps : List Pin)
    → contains (hashes ps) x ≡ true
    → nat_beq (length (keep (λ p. not (p.spki_sha256 == x)) ps)) (length ps) ≡ false
keep_shorter x ps h =
    elim (Bool-cases (nat_beq (length (keep (λ p. not (p.spki_sha256 == x)) ps)) (length ps))) [
      | inl e ↦ absurd (let k = keep_all x ps (ground arith) in cc)
      | inr e ↦ e
    ]

pub contains-nonempty :
    (x : String) (ps : List Pin) → contains (hashes ps) x ≡ true → nonempty ps ≡ true
contains-nonempty x [] h = h
contains-nonempty x (p ∷ ps) h = refl

-- A filter for a hash keeps the other hashes.
pub keep_others :
    (x y : String) (ps : List Pin)
    → (y == x) ≡ false
    → contains (hashes ps) y ≡ true
    → contains (hashes (keep (λ p. not (p.spki_sha256 == x)) ps)) y ≡ true
keep_others x y [] d h = h
keep_others x y (p ∷ ps) d h = elim (Bool-cases (p.spki_sha256 == x)) [
  | inl q ↦ rw q (
      keep_others x y ps d (elim (Bool-cases (p.spki_sha256 == y)) [
        | inl r ↦ absurd (
            let same = (eq_iff p.spki_sha256 x).0 q in
            let also = (eq_iff p.spki_sha256 y).0 r in
            let both = (eq_iff y x).1 (sym also ∙ same) in cc)
        | inr r ↦ ground (arith)
      ]))
  | inr q ↦ elim (Bool-cases (p.spki_sha256 == y)) [
    | inl r ↦ rw (q, r) refl
    | inr r ↦ rw (q, r) (keep_others x y ps d (ground arith))
  ]
]

contains-append :
    (xs : List String) (x y : String) → contains (xs ++ y ∷ []) x ≡ (contains xs x || (y == x))
contains-append [] x y = ground arith
contains-append (z ∷ xs) x y = ground (arith, contains-append xs x y)

pub with_hash_lem : (hs : List String) (x : String) → contains (with_hash hs x) x ≡ true
with_hash_lem hs x = elim (Bool-cases (contains hs x)) [
  | inl e ↦ rw (e, e) refl
  | inr e ↦ rw (e, contains-append hs x x) (ground (arith, beq_refl x))
]
