-- ===== src/Webhooks/Deliver.antt =====
-- What an attempt leaves behind, and the whole task (`_record_attempt`, `_bump_endpoint`,
-- `_notify_dead` and `deliver_webhook` of apps/webhooks/tasks.py).
use cwstation.Prelude.{
  ℕ, ◌+◌, Bool, true, false, not, ◌&&◌, Option, none, some, List, [], ◌∷◌, Text, leb, ◌==◌,
  if◌then◌else◌, update_where, find_first,
}
use cwstation.Webhooks.Model.{
  DeliveryStatus, retrying, success, dead, WebhookEndpoint, WebhookDelivery, is_terminal, WebDb,
  delivery_key, Outside, WebSettings,
}
use cwstation.Webhooks.Backoff.{backoff_seconds, clamp_backoff}
use cwstation.Webhooks.Hooks.{Hooks}
use cwstation.Webhooks.Send.{Moment, Attempt, succeeded, send_delivery}

-- What becomes of a delivery.
pub data Fate : Type 0 where
  succeeds gives_up : Fate
  waits : ℕ → Fate

abbrev pub status_of : Fate → DeliveryStatus
status_of succeeds = success
status_of gives_up = dead
status_of (waits n) = retrying

abbrev pub cursor_of : ℕ → Fate → Option ℕ
cursor_of now succeeds = none
cursor_of now gives_up = none
cursor_of now (waits n) = some (now + n)

-- `delivery.save(update_fields=_ATTEMPT_FIELDS)`
unfoldable pub save_outcome : ℕ → ℕ → Attempt → Moment → Fate → WebDb → WebDb
save_outcome id n a c fate db = record db {
  deliveries =
      update_where (delivery_key id)
        (λ d. record d {
          attempt = n;
          response_status = a.status_code;
          response_ms = some c.elapsed_ms;
          error = a.error;
          status = status_of fate;
          next_attempt_at = cursor_of c.now fate;
        })
        db.deliveries;
}

abbrev pub endpoint_key : ℕ → WebhookEndpoint → Bool
endpoint_key k ep = ep.id == k

unfoldable pub update_endpoint : ℕ → (WebhookEndpoint → WebhookEndpoint) → WebDb → WebDb
update_endpoint k f db = record db { endpoints = update_where (endpoint_key k) f db.endpoints }

abbrev pub count_success : ℕ → WebhookEndpoint → WebhookEndpoint
count_success now ep = record ep {
  last_delivery_at = some now;
  last_status = some success;
  total_deliveries = ep.total_deliveries + 1;
  consecutive_failures = 0;
}

abbrev pub count_failure : ℕ → DeliveryStatus → WebhookEndpoint → WebhookEndpoint
count_failure now status ep = record ep {
  last_delivery_at = some now;
  last_status = some status;
  total_deliveries = ep.total_deliveries + 1;
  consecutive_failures = ep.consecutive_failures + 1;
}

abbrev pub has_recipients : List Text → Bool
has_recipients [] = false
has_recipients (r ∷ rest) = true

module _ ⦃s : WebSettings⦄ where
  abbrev pub failing : Option WebhookEndpoint → Bool
  failing none = false
  failing (some ep) = leb s.auto_disable_after ep.consecutive_failures && ep.enabled

  unfoldable pub auto_disable : ℕ → WebDb → WebDb
  auto_disable k db =
      if not (s.auto_disable_after == 0) && failing (find_first (endpoint_key k) db.endpoints)
      then update_endpoint k (λ ep. record ep { enabled = false }) db
      else db

  -- `_bump_endpoint`
  unfoldable pub bump_endpoint : ℕ → Moment → Fate → WebDb → WebDb
  bump_endpoint k c succeeds db = update_endpoint k (count_success c.now) db
  bump_endpoint k c gives_up db = auto_disable k (update_endpoint k (count_failure c.now dead) db)
  bump_endpoint k c (waits n) db =
      auto_disable k (update_endpoint k (count_failure c.now retrying) db)

  unfoldable pub notify_dead : Moment → WebDb → WebDb
  notify_dead c db =
      if has_recipients s.failure_emails && c.mails_go
      then record db { mails = db.mails + 1 }
      else db

  unfoldable pub announce : Moment → Fate → WebDb → WebDb
  announce c gives_up db = notify_dead c db
  announce c succeeds db = db
  announce c (waits n) db = db

  module _ ⦃o : Outside⦄ where
    abbrev pub wait_for : ℕ → Option ℕ → ℕ
    wait_for n none = backoff_seconds n
    wait_for n (some asked) = clamp_backoff asked

    unfoldable pub fate_of : WebhookDelivery → ℕ → Attempt → Fate
    fate_of d n a =
        if succeeded a.status_code
        then succeeds
        else if leb d.max_attempts n
        then gives_up
        else waits (wait_for n a.retry_after)

    unfoldable pub finish_attempt : Moment → WebhookDelivery → ℕ → Attempt → Fate → WebDb → WebDb
    finish_attempt c d n a fate db =
        announce c fate (bump_endpoint d.endpoint_id c fate (save_outcome d.id n a c fate db))

    -- `d` is the copy that the task has loaded.
    unfoldable pub record_attempt : Moment → WebhookDelivery → Attempt → WebDb → WebDb
    record_attempt c d a db = finish_attempt c d (d.attempt + 1) a (fate_of d (d.attempt + 1) a) db

-- What the task returns, or that it raises.
pub data Delivered : Type 0 where
  not_found raised : Delivered
  skipped : DeliveryStatus → Delivered
  attempted : ℕ → Option ℕ → Bool → Delivered

abbrev pub unless_terminal : WebhookDelivery → Option WebhookDelivery
unless_terminal d = if is_terminal d.status then none else some d

-- The copy that a task for the key works on, if the row is there and is not terminal.
abbrev pub open_copy : Option WebhookDelivery → Option WebhookDelivery
open_copy none = none
open_copy (some d) = unless_terminal d

unfoldable pub load_delivery : ℕ → WebDb → Option WebhookDelivery
load_delivery k db = open_copy (find_first (delivery_key k) db.deliveries)

module _ ⦃o : Outside⦄ ⦃s : WebSettings⦄ where
  abbrev pub settle_attempt : Moment → WebhookDelivery → Option Attempt → WebDb → Delivered × WebDb
  settle_attempt c d none db = (raised, db)
  settle_attempt c d (some a) db =
      (attempted (d.attempt + 1) a.status_code (succeeded a.status_code), record_attempt c d a db)

  module _ ⦃h : Hooks⦄ where
    abbrev pub with_endpoint :
        Moment → WebhookDelivery → Option WebhookEndpoint → WebDb → Delivered × WebDb
    with_endpoint c d none db = (not_found, db)
    with_endpoint c d (some ep) db = settle_attempt c d (send_delivery c d ep) db

    abbrev pub deliver_open :
        Moment → WebhookDelivery → Option WebhookDelivery → WebDb → Delivered × WebDb
    deliver_open c d none db = (skipped d.status, db)
    deliver_open c d (some copy) db =
        with_endpoint c copy (find_first (endpoint_key copy.endpoint_id) db.endpoints) db

    abbrev pub deliver_found : Moment → Option WebhookDelivery → WebDb → Delivered × WebDb
    deliver_found c none db = (not_found, db)
    deliver_found c (some d) db = deliver_open c d (unless_terminal d) db

    -- An endpoint's deliveries go with it, so a delivery without one is not found either.
    unfoldable pub deliver_webhook : Moment → ℕ → WebDb → Delivered × WebDb
    deliver_webhook c k db = deliver_found c (find_first (delivery_key k) db.deliveries) db
