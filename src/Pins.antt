-- ===== src/Pins.antt =====
-- maestro/security/cert_pinning.py and maestro/security/pinned_transport.py: the pin store, the check
-- of a certificate against it, the store's file, and the transport that checks every response.
-- The parameter `spki` is `compute_spki_sha256`, which the library `cryptography` does: `none` is a
-- certificate that it cannot read. A file is modelled by the JSON value that is written or read.
use Prim.Native.String.{compare as text_compare}
use Prim.Native.Nat.{Ordering}
use maestro_orchestrator.Prelude.{
  ℕ, String, Bool, true, false, not, Option, none, some, List, [], ◌∷◌, ◌++◌, map, ◌==◌, ◌&&◌,
  if◌then◌else◌, text_keys, number_keys, nat_beq,
}
use maestro_orchestrator.Prelude.Lists.{length, any, keep, contains, nonempty}
use maestro_orchestrator.Prelude.Dict.{Dict, get, set, delete, keys}
pub mod Store
pub mod Verify

pub record Pin : Type 0 where
  pub hostname : String
  pub spki_sha256 : String
  pub added_at : String
  pub notes : String

-- The metadata are the other members of the file, as JSON texts.
pub record PinStore : Type 0 where
  pub pins_by_host : Dict String (List Pin)
  pub metadata : Dict String String

unfoldable pub pins_for : String → PinStore → List Pin
pins_for host s = elim (get host s.pins_by_host) [ none ↦ [] | some pins ↦ pins ]

abbrev pub hashes : List Pin → List String
hashes pins = map (λ p. p.spki_sha256) pins

unfoldable pub is_pinned : String → PinStore → Bool
is_pinned host s = elim (get host s.pins_by_host) [ none ↦ false | some pins ↦ nonempty pins ]

unfoldable pub add_pin : Pin → PinStore → PinStore
add_pin p s =
    let bucket = pins_for p.hostname s in
    record s {
      pins_by_host =
          set p.hostname
            (if any (λ q. q.spki_sha256 == p.spki_sha256) bucket then bucket else bucket ++ p ∷ [])
            s.pins_by_host;
    }

-- What becomes of a bucket that had a pin taken out.
unfoldable pub put_bucket : String → List Pin → PinStore → PinStore
put_bucket host [] s = record s { pins_by_host = delete host s.pins_by_host }
put_bucket host (p ∷ ps) s = record s { pins_by_host = set host (p ∷ ps) s.pins_by_host }

unfoldable pub remove_pin : String → String → PinStore → PinStore × Bool
unfolding put_bucket
remove_pin host spki s =
    let bucket = pins_for host s in
    let filtered = keep (λ p. not (p.spki_sha256 == spki)) bucket in
    if not (nonempty bucket)
    then (s, false)
    else if nat_beq (length filtered) (length bucket)
    then (s, false)
    else (put_bucket host filtered s, true)

-- a < b for texts, by code points.
text_lt : String → String → Bool
text_lt a b = elim (text_compare a b) [ Ordering.lt ↦ true | _ ↦ false ]

-- sorted(d.keys()), with the buckets.
unfoldable pub insert_host : String → List Pin → Dict String (List Pin) → Dict String (List Pin)
unfolding text_lt
insert_host k v [] = (k, v) ∷ []
insert_host k v ((j, w) ∷ d) =
    if text_lt j k then (j, w) ∷ insert_host k v d else (k, v) ∷ (j, w) ∷ d

unfoldable pub sort_hosts : Dict String (List Pin) → Dict String (List Pin)
unfolding insert_host
sort_hosts [] = []
sort_hosts ((k, v) ∷ d) = insert_host k v (sort_hosts d)

pub hostnames : PinStore → List String
unfolding sort_hosts
hostnames s = keys (sort_hosts s.pins_by_host)

-- Why a check raises.
pub data PinError : Type 0 where
  pin_mismatch : String → String → List String → PinError
  unreadable_certificate : PinError
  extractor_failed : PinError

pub data Checked : Type 0 where
  passes : Checked
  raises : PinError → Checked

module _ {Cert : Type 0} (spki : Cert → Option String) where
  unfoldable pub check_hash : String → String → Bool → PinStore → Checked
  check_hash host presented require_pin s = elim (pins_for host s) [
    | [] ↦ if require_pin then raises (pin_mismatch host presented []) else passes
    | p ∷ ps ↦
        if contains (hashes (p ∷ ps)) presented
        then passes
        else raises (pin_mismatch host presented (hashes (p ∷ ps)))
  ]

  unfoldable pub verify_pin : Cert → String → PinStore → Bool → Checked
  unfolding check_hash
  verify_pin cert host s require_pin = elim (spki cert) [
    | none ↦ raises unreadable_certificate
    | some presented ↦ check_hash host presented require_pin s
  ]

-- What the extractor of a transport does with a response.
pub data Extracted (Cert : Type 0) : Type 0 where
  crashed : Extracted Cert
  no_certificate : Extracted Cert
  certificate : Cert → Extracted Cert

module _ {Cert : Type 0} (spki : Cert → Option String) where
  -- `handle_async_request` on the response that the inner transport has got; `passes` is its return.
  unfoldable pub handle_async_request : Extracted Cert → String → PinStore → Bool → Checked
  unfolding verify_pin is_pinned
  handle_async_request crashed host s require_pin =
      if is_pinned host s
      then raises (pin_mismatch host "<extractor-error>" (hashes (pins_for host s)))
      else raises extractor_failed
  handle_async_request no_certificate host s require_pin =
      if require_pin && is_pinned host s
      then raises (pin_mismatch host "<no-cert>" (hashes (pins_for host s)))
      else passes
  handle_async_request (certificate c) host s require_pin = verify_pin spki c host s require_pin

-- The file: its version and its entries, with the other members.
pub record PinEntry : Type 0 where
  pub hostname : String
  pub spki_sha256 : List String
  pub added_at : String
  pub notes : String

pub record PinFile : Type 0 where
  pub version : ℕ
  pub pins : List PinEntry
  pub others : Dict String String

unfoldable pub add_hashes : String → String → String → List String → PinStore → PinStore
unfolding add_pin
add_hashes host added notes [] s = s
add_hashes host added notes (h ∷ hs) s =
    add_hashes host added notes hs
      (add_pin (record { hostname = host; spki_sha256 = h; added_at = added; notes = notes }) s)

unfoldable pub load_entries : List PinEntry → PinStore → PinStore
unfolding add_hashes
load_entries [] s = s
load_entries (e ∷ es) s = load_entries es (add_hashes e.hostname e.added_at e.notes e.spki_sha256 s)

-- `none` is the ValueError of an unsupported version.
unfoldable pub load_pin_store : PinFile → Option PinStore
unfolding load_entries
load_pin_store file =
    if file.version == 1
    then some (load_entries file.pins (record { pins_by_host = []; metadata = file.others }))
    else none

unfoldable pub entries_of : Dict String (List Pin) → List PinEntry
entries_of [] = []
entries_of ((host, []) ∷ d) = entries_of d
entries_of ((host, p ∷ ps) ∷ d) =
    record {
      hostname = host;
      spki_sha256 = hashes (p ∷ ps);
      added_at = p.added_at;
      notes = p.notes;
    }
    ∷ entries_of d

-- The metadata of a store hold neither `version` nor `pins`.
unfoldable pub save_pin_store : PinStore → PinFile
unfolding entries_of sort_hosts
save_pin_store s = record {
  version = 1;
  pins = entries_of (sort_hosts s.pins_by_host);
  others = s.metadata;
}
