-- ===== src/Examples/Certs.antt =====
-- Pins of two hosts, and certificates that are their own hashes.
use maestro_orchestrator.Prelude.{String, ◌≡◌, text_keys, refl, true, Option, some, [], ◌∷◌}
use maestro_orchestrator.Prelude.Lists.{contains}
use maestro_orchestrator.Prelude.Dict.{get}
use maestro_orchestrator.Pins.{
  Pin, PinStore, pins_for, hashes, is_pinned, verify_pin, certificate, check_hash,
  handle_async_request,
}
use maestro_orchestrator.Pins.Verify.{handle_async_request_pinned}

abbrev pin_of : String → String → Pin
pin_of host hash = record { hostname = host; spki_sha256 = hash; added_at = "10:00"; notes = "" }

abbrev store : PinStore
store = record {
  pins_by_host =
      ("api.openai.com", pin_of "api.openai.com" "aa" ∷ [])
      ∷ ("api.x.ai", pin_of "api.x.ai" "bb" ∷ [])
      ∷ [];
  metadata = [];
}

abbrev spki : String → Option String
spki c = some c

handle_async_request_pinned_example :
    (cert : String) × (presented : String) × (certificate "bb" ≡ certificate cert)
    × (spki cert ≡ some presented)
    × (contains (hashes (pins_for "api.x.ai" store)) presented ≡ true)
unfolding is_pinned get handle_async_request verify_pin check_hash pins_for
handle_async_request_pinned_example =
    handle_async_request_pinned spki (certificate "bb") "api.x.ai" store refl refl
