-- ===== src/Webhooks/Samples.antt =====
-- A small site, and the rows and answers with which the webhooks are tried out.
use cwstation.Prelude.{
  ℕ, refl, Bool, true, false, ◌||◌, Option, none, some, List, [], ◌∷◌, Text, codes, text_eq,
  is_space,
}
use cwstation.Webhooks.Model.{
  DeliveryStatus, WebhookEndpoint, WebhookDelivery, no_error, not_sent, WebhookReceiver, WebDb,
  Flags, Outside, WebSettings,
}
use cwstation.Webhooks.Hooks.{Hooks}
use cwstation.Webhooks.Send.{Moment, connected, replied, Attempt}
use cwstation.Webhooks.Services.{SiteEvent}
use cwstation.Webhooks.Verified.{HexDigest}

abbrev pub no_flags : Flags
no_flags = record {
  is_private = false;
  is_loopback = false;
  is_link_local = false;
  is_reserved = false;
  is_multicast = false;
  is_unspecified = false;
}

-- Each URL is one of the host "peer", whose address is public; the only other address is the loopback.
abbrev pub plain_outside : Outside
plain_outside = record {
  urlsplit = λ url. some (record {
    scheme = codes "https";
    netloc = codes "peer";
    hostname = codes "peer";
    port = none;
    path = [];
    query = [];
  });
  with_query = λ url query. url;
  urlencode = λ params. [];
  getaddrinfo = λ host port. some (codes "93.184.216.34" ∷ []);
  ip_address = λ ip. some (record {
    flags = record no_flags { is_loopback = text_eq ip (codes "127.0.0.1") };
    ipv4_mapped = none;
  });
  hmac_sha256 = λ secret body. codes "ab";
  fnmatch = λ event pattern. text_eq event pattern || text_eq pattern (codes "*");
  parsedate = λ value. none;
  dumps = λ payload. codes "{}";
  decode = λ body. body;
  gethostname = codes "station";
}

pub hex_digest : HexDigest plain_outside
unfolding is_space
hex_digest = record { plain = λ secret body. refl }

abbrev pub some_settings : WebSettings
some_settings = record {
  webhooks_enabled = true;
  outbound = true;
  inbound = true;
  max_attempts = 2;
  backoff = [];
  max_backoff = 21600;
  allow_private = false;
  allowlist = [];
  auto_disable_after = 20;
  failure_emails = [];
  inbound_max_bytes = 100;
  rejected_per_minute = 1;
  origin = codes "https://here";
  site_urls = [];
}

abbrev pub no_hooks : Hooks
no_hooks = record {
  transforms = [];
  auths = [];
  verifiers = [];
  challenges = [];
  handlers = (codes "github", false) ∷ [];
}

abbrev pub moment : ℕ → Moment
moment now = record {
  now = now;
  broker = λ key. true;
  mails_go = true;
  elapsed_ms = 5;
  contact = λ req.
      connected (codes "93.184.216.34") (replied (record { code = 200; retry_after = none }));
}

abbrev pub an_endpoint : ℕ → Bool → List Text → WebhookEndpoint
an_endpoint k enabled patterns = record {
  id = k;
  target_url = codes "https://peer/in";
  secret = codes "s3cret";
  event_filter = patterns;
  headers = (codes "X-SmallStack-Signature", codes "mine") ∷ (codes "X-Team", codes "cw") ∷ [];
  enabled = enabled;
  is_paired = false;
  transform = [];
  auth_scheme = codes "hmac";
  owner = none;
  last_delivery_at = none;
  last_status = none;
  total_deliveries = 0;
  consecutive_failures = 0;
}

abbrev pub a_receiver : WebhookReceiver
a_receiver = record {
  id = 4;
  slug = codes "github";
  handler = [];
  secret = codes "s3cret";
  signature_header = codes "X-SmallStack-Signature";
  require_signature = true;
  enabled = true;
  is_paired = false;
  verifier = [];
  challenge = [];
  ignore_origin = [];
  owner = none;
  last_received_at = none;
  total_received = 0;
}

abbrev pub fresh_db : WebDb
fresh_db = record {
  endpoints =
      an_endpoint 1 true (codes "qso.created" ∷ [])
      ∷ an_endpoint 2 false (codes "*" ∷ [])
      ∷ an_endpoint 3 true (codes "*" ∷ [])
      ∷ [];
  deliveries = [];
  receivers = a_receiver ∷ [];
  receipts = [];
  next_endpoint = 4;
  next_delivery = 7;
  next_receiver = 5;
  next_receipt = 9;
  deliver_queue = [];
  dispatch_queue = [];
  mails = 0;
}

abbrev pub an_event : SiteEvent
an_event = record { event_type = codes "qso.created"; payload = 3; event_id = some (codes "e1") }

abbrev pub no_answer : Attempt
no_answer = record {
  status_code = none;
  error = not_sent (codes "timeout");
  retry_after = none;
  sent = [];
}

abbrev pub good_answer : Attempt
good_answer = record { status_code = some 200; error = no_error; retry_after = none; sent = [] }

abbrev pub a_delivery : ℕ → DeliveryStatus → ℕ → Option ℕ → WebhookDelivery
a_delivery k status attempt cursor = record {
  id = k;
  endpoint_id = 1;
  event_type = codes "qso.created";
  payload = 3;
  event_id = some (codes "e1");
  status = status;
  attempt = attempt;
  max_attempts = 2;
  next_attempt_at = cursor;
  response_status = none;
  response_ms = none;
  error = no_error;
  created_at = 0;
}
