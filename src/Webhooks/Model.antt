-- ===== src/Webhooks/Model.antt =====
-- apps/webhooks/models.py: the rows of the webhooks. Times are seconds and `payload` stands for the
-- JSON of an event; names and the fields that only a person reads are left out.
use cwstation.Prelude.{ℕ, Bool, true, false, Option, List, Text, ◌==◌}

-- WebhookDelivery.Status; an endpoint's `last_status` is blank or one of these.
pub data DeliveryStatus : Type 0 where
  pending retrying success failed dead : DeliveryStatus

pub record WebhookEndpoint : Type 0 where
  pub id : ℕ
  pub target_url : Text
  pub secret : Text
  pub event_filter : List Text
  pub headers : List (Text × Text)
  pub enabled : Bool
  pub is_paired : Bool
  pub transform : Text
  pub auth_scheme : Text
  pub owner : Option ℕ
  pub last_delivery_at : Option ℕ
  pub last_status : Option DeliveryStatus
  pub total_deliveries : ℕ
  pub consecutive_failures : ℕ

-- Why `url_is_allowed` turns a URL down.
pub data Refusal : Type 0 where
  not_http no_host not_in_allowlist : Refusal
  private_address : Text → Refusal

-- What the text of a delivery's `error` says.
pub data SendError : Type 0 where
  no_error : SendError
  blocked_by_guard : Refusal → SendError
  blocked_peer : Text → SendError
  not_sent : Text → SendError

pub record WebhookDelivery : Type 0 where
  pub id : ℕ
  pub endpoint_id : ℕ
  pub event_type : Text
  pub payload : ℕ
  pub event_id : Option Text
  pub status : DeliveryStatus
  pub attempt : ℕ
  pub max_attempts : ℕ
  pub next_attempt_at : Option ℕ
  pub response_status : Option ℕ
  pub response_ms : Option ℕ
  pub error : SendError
  pub created_at : ℕ

-- WebhookDelivery.is_terminal
abbrev pub is_terminal : DeliveryStatus → Bool
is_terminal success = true
is_terminal dead = true
is_terminal _ = false

abbrev pub is_retrying : DeliveryStatus → Bool
is_retrying retrying = true
is_retrying _ = false

abbrev pub is_dead_delivery : DeliveryStatus → Bool
is_dead_delivery dead = true
is_dead_delivery _ = false

pub record WebhookReceiver : Type 0 where
  pub id : ℕ
  pub slug : Text
  pub handler : Text
  pub secret : Text
  pub signature_header : Text
  pub require_signature : Bool
  pub enabled : Bool
  pub is_paired : Bool
  pub verifier : Text
  pub challenge : Text
  pub ignore_origin : Text
  pub owner : Option ℕ
  pub last_received_at : Option ℕ
  pub total_received : ℕ

pub data ReceiptStatus : Type 0 where
  accepted rejected processed failed ignored : ReceiptStatus

-- What the text of a receipt's `error` says.
pub data ReceiptError : Type 0 where
  no_receipt_error bad_signature self_originated no_handler handler_raised : ReceiptError

pub record WebhookReceipt : Type 0 where
  pub id : ℕ
  pub receiver_id : ℕ
  pub received_at : ℕ
  pub headers : List (Text × Text)
  pub body : Text
  pub verified : Bool
  pub origin : Text
  pub status : ReceiptStatus
  pub error : ReceiptError

-- The tables, each with the key that its next row gets, the tasks that wait to deliver or to
-- dispatch, by the key that they are called with, and the count of mails about dead deliveries.
pub record WebDb : Type 0 where
  pub endpoints : List WebhookEndpoint
  pub deliveries : List WebhookDelivery
  pub receivers : List WebhookReceiver
  pub receipts : List WebhookReceipt
  pub next_endpoint : ℕ
  pub next_delivery : ℕ
  pub next_receiver : ℕ
  pub next_receipt : ℕ
  pub deliver_queue : List ℕ
  pub dispatch_queue : List ℕ
  pub mails : ℕ

abbrev pub delivery_key : ℕ → WebhookDelivery → Bool
delivery_key k d = d.id == k

-- The parts of a URL that the program reads.
pub record UrlParts : Type 0 where
  pub scheme : Text
  pub netloc : Text
  pub hostname : Text
  pub port : Option ℕ
  pub path : Text
  pub query : Text

pub record Flags : Type 0 where
  pub is_private : Bool
  pub is_loopback : Bool
  pub is_link_local : Bool
  pub is_reserved : Bool
  pub is_multicast : Bool
  pub is_unspecified : Bool

pub record Address : Type 0 where
  pub flags : Flags
  pub ipv4_mapped : Option Flags

-- What the webhooks take from Python and its libraries: `none` stands for an exception. `dumps` is the
-- JSON of a payload, `decode` the text of some bytes.
pub record Outside : Type 0 where
  pub urlsplit : Text → Option UrlParts
  pub with_query : Text → Text → Text
  pub urlencode : List (Text × Text) → Text
  pub getaddrinfo : Text → ℕ → Option (List Text)
  pub ip_address : Text → Option Address
  pub hmac_sha256 : Text → Text → Text
  pub fnmatch : Text → Text → Bool
  pub parsedate : Text → Option ℕ
  pub dumps : ℕ → Text
  pub decode : Text → Text
  pub gethostname : Text

-- The settings whose names start with SMALLSTACK_WEBHOOK, and the ones that name the site.
pub record WebSettings : Type 0 where
  pub webhooks_enabled : Bool
  pub outbound : Bool
  pub inbound : Bool
  pub max_attempts : ℕ
  pub backoff : List ℕ
  pub max_backoff : ℕ
  pub allow_private : Bool
  pub allowlist : List Text
  pub auto_disable_after : ℕ
  pub failure_emails : List Text
  pub inbound_max_bytes : ℕ
  pub rejected_per_minute : ℕ
  pub origin : Text
  pub site_urls : List Text
