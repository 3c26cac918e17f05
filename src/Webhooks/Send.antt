-- ===== src/Webhooks/Send.antt =====
-- The task `deliver_webhook` (apps/webhooks/tasks.py). The headers of a request are those that urllib
-- keeps; the rest of urllib, with the network behind it, is the function `contact` of a `Moment`.
use cwstation.Prelude.{
  to_upper, ℕ, Bool, false, not, ◌&&◌, ◌||◌, Option, none, some, List, [], ◌∷◌, ◌++◌, Text, codes,
  leb, ltb, ◌==◌, if◌then◌else◌, dict_get, dict_set, decimal,
}
use cwstation.Webhooks.Headers.{Dict, lower}
use cwstation.Webhooks.Model.{
  WebhookEndpoint, WebhookDelivery, SendError, no_error, blocked_by_guard, blocked_peer, not_sent,
  Outside, WebSettings,
}
use cwstation.Webhooks.Guard.{
  Verdict, allowed, refused, raises, url_is_allowed, ip_is_blocked, current_origin,
}
use cwstation.Webhooks.Backoff.{parse_retry_after}
use cwstation.Webhooks.Hooks.{
  Auth, Transform, Transformed, AuthResult, Hooks, get_transform, get_auth,
}

pub record Request : Type 0 where
  pub url : Text
  pub body : Text
  pub headers : Dict

-- The status code that comes back, and the value of its Retry-After header.
pub record HttpReply : Type 0 where
  pub code : ℕ
  pub retry_after : Option Text

-- How an open connection ends: with a reply, or with an exception, of the network or another, after
-- some or all bytes of the request have left.
pub data Ending : Type 0 where
  replied : HttpReply → Ending
  cut_off : Text → Ending

-- What comes of opening a connection: one through a proxy, one to a peer with this address, or an
-- exception before there is one.
pub data Contact : Type 0 where
  via_proxy : Ending → Contact
  connected : Text → Ending → Contact
  unreachable : Text → Contact

-- A request of which bytes may have left.
pub data Sent : Type 0 where
  to_proxy : Request → Sent
  to_peer : Text → Request → Sent

-- What a call finds outside: the time, whether the broker takes a task for a key, whether it takes a
-- mail, and for an attempt how long it takes and what the network does.
pub record Moment : Type 0 where
  pub now : ℕ
  pub broker : ℕ → Bool
  pub mails_go : Bool
  pub elapsed_ms : ℕ
  pub contact : Request → Contact

-- What an attempt has found out.
pub record Attempt : Type 0 where
  pub status_code : Option ℕ
  pub error : SendError
  pub retry_after : Option ℕ
  pub sent : List Sent

abbrev pub is_2xx : ℕ → Bool
is_2xx code = leb 200 code && ltb code 300

abbrev pub succeeded : Option ℕ → Bool
succeeded none = false
succeeded (some code) = is_2xx code

abbrev pub add_if_free : Text → Text → Dict → Option Text → Dict
add_if_free k v headers none = dict_set k v headers
add_if_free k v headers (some w) = headers

-- Headers of the endpoint go in under names that are still free.
unfoldable pub add_static : Dict → Dict → Dict
add_static [] headers = headers
add_static ((k, v) ∷ rest) headers = add_static rest (add_if_free k v headers (dict_get k headers))

unfoldable pub dict_update : Dict → Dict → Dict
dict_update [] headers = headers
dict_update ((k, v) ∷ rest) headers = dict_update rest (dict_set k v headers)

-- `str.capitalize`, on ASCII.
unfoldable pub capitalize : Text → Text
capitalize [] = []
capitalize (c ∷ rest) = to_upper c ∷ lower rest

-- What urllib.request.Request makes of its headers: `add_header` under the capitalized name.
unfoldable pub add_headers : Dict → Dict → Dict
add_headers [] headers = headers
add_headers ((k, v) ∷ rest) headers = add_headers rest (dict_set (capitalize k) v headers)

abbrev add_event_id : Option Text → Dict → Dict
add_event_id none headers = headers
add_event_id (some id) headers = dict_set (codes "X-SmallStack-Event-Id") id headers

unfoldable pub base_headers : Transformed → WebhookDelivery → Text → Dict
base_headers t d origin = add_event_id d.event_id (
    (codes "Content-Type", t.content_type)
    ∷ (codes "X-SmallStack-Event", d.event_type)
    ∷ (codes "X-SmallStack-Delivery", decimal d.id)
    ∷ (codes "X-SmallStack-Origin", origin)
    ∷ (codes "User-Agent", codes "SmallStack-Webhooks/1.0")
    ∷ [])

abbrev join_query : Text → Text → Text
join_query [] more = more
join_query (c ∷ query) [] = c ∷ query
join_query (c ∷ query) (m ∷ more) = (c ∷ query) ++ b'&' ∷ m ∷ more

module _ ⦃o : Outside⦄ ⦃s : WebSettings⦄ where
  -- The target with the parameters that the auth scheme adds.
  unfoldable pub target_with : Text → Dict → Option Text
  target_with url [] = some url
  target_with url (p ∷ params) = elim (o.urlsplit url) [
    | none ↦ none
    | some parts ↦ some (o.with_query url (join_query parts.query (o.urlencode (p ∷ params))))
  ]

  module _ ⦃h : Hooks⦄ where
    abbrev pub request_of :
        WebhookEndpoint → Text → Dict → AuthResult → Option Text → Option Request
    request_of ep body headers auth none = none
    request_of ep body headers auth (some url) = some (record {
      url = url;
      body = body;
      headers = add_headers (add_static ep.headers (dict_update auth.headers headers)) [];
    })

    abbrev pub authorised :
        WebhookDelivery → WebhookEndpoint → Text → Dict → Option AuthResult → Option Request
    authorised d ep body headers none = none
    authorised d ep body headers (some auth) =
        request_of ep body headers auth (target_with ep.target_url auth.params)

    abbrev pub authorise_by :
        WebhookDelivery → WebhookEndpoint → Text → Dict → Option Auth → Option Request
    authorise_by d ep body headers none = none
    authorise_by d ep body headers (some auth) = authorised d ep body headers (
        auth
          (record {
            url = ep.target_url;
            body = body;
            headers = headers;
            event_type = d.event_type;
          })
          ep)

    abbrev pub transformed :
        WebhookDelivery → WebhookEndpoint → Option Text → Option Transformed → Option Request
    transformed d ep origin none = none
    transformed d ep none (some t) = none
    transformed d ep (some origin) (some t) =
        authorise_by d ep t.body (base_headers t d origin) (get_auth ep.auth_scheme)

    abbrev pub built_by : WebhookDelivery → WebhookEndpoint → Option Transform → Option Request
    built_by d ep none = none
    built_by d ep (some transform) = transformed d ep current_origin (transform d.payload)

    -- The request of an attempt; `none` where a transform, an auth scheme or urllib raises.
    unfoldable pub build_request : WebhookDelivery → WebhookEndpoint → Option Request
    build_request d ep = built_by d ep (get_transform ep.transform)

  -- `_check_peer`
  unfoldable pub peer_is_blocked : Text → Bool
  peer_is_blocked peer = not s.allow_private && ip_is_blocked peer

  abbrev no_reply : SendError → List Sent → Attempt
  no_reply e sent = record { status_code = none; error = e; retry_after = none; sent = sent }

  abbrev asks_to_wait : ℕ → Bool
  asks_to_wait code = code == 429 || code == 503

  abbrev waited : HttpReply → List Sent → Option (Option ℕ) → Option Attempt
  waited r sent none = none
  waited r sent (some wait) =
      some (record { status_code = some r.code; error = no_error; retry_after = wait; sent = sent })

  -- A code other than 2xx is an HTTPError, redirects too, as none is followed.
  unfoldable pub answered : ℕ → HttpReply → List Sent → Option Attempt
  answered now r sent = waited r sent (
      if not (is_2xx r.code) && asks_to_wait r.code
      then parse_retry_after now r.retry_after
      else some none)

  abbrev pub ended : ℕ → List Sent → Ending → Option Attempt
  ended now sent (replied r) = answered now r sent
  ended now sent (cut_off text) = some (no_reply (not_sent text) sent)

  -- `_open`, and the exceptions that the task catches.
  unfoldable pub http_exchange : ℕ → Request → Contact → Option Attempt
  http_exchange now req (via_proxy e) = ended now (to_proxy req ∷ []) e
  http_exchange now req (connected peer e) =
      let reply = ended now (to_peer peer req ∷ []) e in
      if peer_is_blocked peer then some (no_reply (blocked_peer peer) []) else reply
  http_exchange now req (unreachable text) = some (no_reply (not_sent text) [])

  abbrev pub send_checked : Moment → Request → Verdict → Option Attempt
  send_checked c req raises = none
  send_checked c req (refused reason) = some (no_reply (blocked_by_guard reason) [])
  send_checked c req allowed = http_exchange c.now req (c.contact req)

  abbrev pub send_request : Moment → Option Request → Option Attempt
  send_request c none = none
  send_request c (some req) = send_checked c req (url_is_allowed req.url)

  -- An attempt at a delivery: nothing is written yet. `none` is an exception that the task does not
  -- catch.
  unfoldable pub send_delivery :
      ⦃h : Hooks⦄ → Moment → WebhookDelivery → WebhookEndpoint → Option Attempt
  send_delivery c d ep = send_request c (build_request d ep)
