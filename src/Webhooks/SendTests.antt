-- ===== src/Webhooks/SendTests.antt =====
-- The theorems about the requests of webhooks at concrete inputs.
use cwstation.Prelude.{
  ◌≡◌, refl, true, Option, none, some, [], ◌∷◌, Text, codes, all_where, dict_get, lstrip, strip_end,
  strip, is_space, decimal, digits_of,
}
use cwstation.Webhooks.Model.{pending, no_error}
use cwstation.Webhooks.Headers.{Dict, header_get, header_update}
use cwstation.Webhooks.HeadersAsDict.{lower_update, header_get-header_update}
use cwstation.Webhooks.Hooks.{
  get_transform, get_auth, resolve, register_all, register, default_transform, default_auth,
}
use cwstation.Webhooks.Guard.{signature_header_value, sign, current_origin, verify}
use cwstation.Webhooks.Send.{
  to_peer, base_headers, add_static, dict_update, target_with, add_headers, capitalize, Request,
  Attempt, build_request, send_delivery,
}
use cwstation.Webhooks.Wire.{wire_signature_name, is_apart}
use cwstation.Webhooks.Guarded.{build_request-verify}
use cwstation.Webhooks.Samples.{
  plain_outside, hex_digest, some_settings, no_hooks, moment, an_endpoint, a_delivery,
}

abbrev first_attempt : Option Attempt
first_attempt =
    send_delivery ⦃o = plain_outside⦄ ⦃s = some_settings⦄ ⦃h = no_hooks⦄ (moment 0)
      (a_delivery 7 pending 0 none) (an_endpoint 1 true [])

abbrev first_headers : Dict
first_headers =
    (codes "Content-type", codes "application/json")
    ∷ (codes "X-smallstack-event", codes "qso.created")
    ∷ (codes "X-smallstack-delivery", codes "7")
    ∷ (codes "X-smallstack-origin", codes "https://here")
    ∷ (codes "User-agent", codes "SmallStack-Webhooks/1.0")
    ∷ (codes "X-smallstack-event-id", codes "e1")
    ∷ (codes "X-smallstack-signature", codes "sha256=ab")
    ∷ (codes "X-team", codes "cw")
    ∷ []

abbrev first_request : Request
first_request = record { url = codes "https://peer/in"; body = codes "{}"; headers = first_headers }

first_request_run :
    build_request ⦃o = plain_outside⦄ ⦃s = some_settings⦄ ⦃h = no_hooks⦄
      (a_delivery 7 pending 0 none)
      (an_endpoint 1 true [])
    ≡ some first_request
unfolding build_request add_headers capitalize get_transform get_auth resolve register_all register
    default_transform default_auth signature_header_value sign base_headers add_static dict_update
    target_with current_origin decimal digits_of strip lstrip strip_end is_space
first_request_run = refl

apart_run : all_where is_apart (an_endpoint 1 true []).headers ≡ true
unfolding capitalize
apart_run = refl

build_request-verify_example :
    (value : Text) × (dict_get wire_signature_name first_headers ≡ some value)
    × (verify ⦃o = plain_outside⦄ ⦃s = some_settings⦄ (codes "s3cret") (codes "{}") value
        ≡ some true)
build_request-verify_example =
    build_request-verify ⦃o = plain_outside⦄ ⦃s = some_settings⦄ ⦃h = no_hooks⦄ hex_digest
      (a_delivery 7 pending 0 none) (an_endpoint 1 true []) first_request refl refl apart_run
      first_request_run

abbrev first_result : Attempt
first_result = record {
  status_code = some 200;
  error = no_error;
  retry_after = none;
  sent = to_peer (codes "93.184.216.34") first_request ∷ [];
}

abbrev two_spellings : Dict
two_spellings = (codes "X-Signature", codes "a") ∷ (codes "x-signature", codes "b") ∷ []

header_get-header_update_example :
    header_get (codes "X-SIGNATURE") (header_update two_spellings (header_update [] []))
    ≡ dict_get (codes "x-signature") (lower_update two_spellings (lower_update [] []))
header_get-header_update_example = header_get-header_update [] two_spellings (codes "X-SIGNATURE")
