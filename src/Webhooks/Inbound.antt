-- ===== src/Webhooks/Inbound.antt =====
-- What comes in: `incoming_webhook` of apps/webhooks/views.py and `dispatch_incoming` of
-- apps/webhooks/tasks.py, with the loop guard of apps/webhooks/context.py and signals.py.
use cwstation.Prelude.{
  ℕ, ◌+◌, Bool, true, false, not, ◌&&◌, ◌||◌, Option, none, some, List, [], ◌∷◌, ◌++◌, Text, codes,
  text_eq, leb, ltb, ◌==◌, if◌then◌else◌, update_where, find_first, filter_where, count_where,
  length, take,
}
use cwstation.Webhooks.Model.{
  WebhookReceiver, ReceiptStatus, accepted, rejected, processed, failed, ignored, ReceiptError,
  no_receipt_error, bad_signature, self_originated, no_handler, handler_raised, WebhookReceipt,
  WebDb, Outside, WebSettings,
}
use cwstation.Webhooks.Headers.{Dict, lower, header_get, header_update}
use cwstation.Webhooks.Guard.{is_empty}
use cwstation.Webhooks.Hooks.{Hooks, Verifier, Challenge, get_verifier, get_challenge, get_handler}
use cwstation.Webhooks.Send.{Moment}
use cwstation.Webhooks.Services.{SiteEvent, fan_out}

-- A POST: `declared` is Content-Length, `none` where it is no number.
pub record Incoming : Type 0 where
  pub slug : Text
  pub declared : Option ℕ
  pub headers : Dict
  pub body : Text

-- The responses, and an exception that leaves the view.
pub data Response : Type 0 where
  not_found too_large unauthorised self_origin server_error : Response
  challenged : ℕ → Response
  taken : ℕ → Response

abbrev pub receiver_key : ℕ → WebhookReceiver → Bool
receiver_key k r = r.id == k

abbrev pub serves : Text → WebhookReceiver → Bool
serves slug r = text_eq r.slug slug && r.enabled

abbrev pub is_rejected : ReceiptStatus → Bool
is_rejected rejected = true
is_rejected _ = false

-- The receiver's rejections of the last minute.
abbrev pub recent_rejection : ℕ → ℕ → WebhookReceipt → Bool
recent_rejection k now receipt =
    receipt.receiver_id == k && (is_rejected receipt.status && leb now (receipt.received_at + 60))

abbrev safe_name : Text → Bool
safe_name name =
    not (text_eq (lower name) (codes "cookie") || text_eq (lower name) (codes "authorization"))

unfoldable pub safe_headers : Dict → Dict
safe_headers headers = filter_where (λ h. safe_name h.0) headers

unfoldable pub create_receipt :
    WebhookReceiver → ℕ → Dict → Text → Bool → Text → ReceiptStatus → ReceiptError → WebDb → WebDb
create_receipt r now headers body verified origin status error db = record db {
  receipts =
      db.receipts
      ++ record {
        id = db.next_receipt;
        receiver_id = r.id;
        received_at = now;
        headers = headers;
        body = body;
        verified = verified;
        origin = origin;
        status = status;
        error = error;
      }
        ∷ [];
  next_receipt = db.next_receipt + 1;
}

unfoldable pub count_received : ℕ → ℕ → WebDb → WebDb
count_received k now db = record db {
  receivers =
      update_where (receiver_key k)
        (λ r. record r { last_received_at = some now; total_received = r.total_received + 1 })
        db.receivers;
}

unfoldable pub enqueue_dispatch : Moment → ℕ → WebDb → WebDb
enqueue_dispatch c k db =
    if c.broker k then record db { dispatch_queue = db.dispatch_queue ++ k ∷ [] } else db

abbrev pub or_zero : Option ℕ → ℕ
or_zero none = 0
or_zero (some n) = n

-- A verifier that raises has not verified.
abbrev pub is_verified : Option Bool → Bool
is_verified none = false
is_verified (some b) = b

abbrev pub or_blank : Option Text → Text
or_blank none = []
or_blank (some t) = t

-- A challenge that raises gives no response.
abbrev pub challenge_answer : Option (Option ℕ) → Option ℕ
challenge_answer none = none
challenge_answer (some answer) = answer

module _ ⦃o : Outside⦄ ⦃s : WebSettings⦄ where
  unfoldable pub reject : Moment → WebhookReceiver → Incoming → Text → WebDb → WebDb
  reject c r m origin db =
      if ltb (count_where (recent_rejection r.id c.now) db.receipts) s.rejected_per_minute
      then create_receipt r c.now (safe_headers m.headers) (o.decode (take 1024 m.body)) false
          (take 200 origin) rejected bad_signature db
      else db

  unfoldable pub ignore_own : Moment → WebhookReceiver → Incoming → Bool → Text → WebDb → WebDb
  ignore_own c r m verified origin db = count_received r.id c.now (
      create_receipt r c.now (safe_headers m.headers) (take 100000 (o.decode m.body)) verified
        origin ignored self_originated db)

  unfoldable pub take_in : Moment → WebhookReceiver → Incoming → Bool → Text → WebDb → WebDb
  take_in c r m verified origin db = enqueue_dispatch c db.next_receipt (
      count_received r.id c.now (
        create_receipt r c.now (safe_headers m.headers) (take 100000 (o.decode m.body)) verified
          origin accepted no_receipt_error db))

  abbrev pub is_own : WebhookReceiver → Text → Bool
  is_own r origin =
      not (is_empty r.ignore_origin) && (not (is_empty origin) && text_eq origin r.ignore_origin)

  unfoldable pub judge_post :
      Moment → WebhookReceiver → Incoming → Bool → Text → WebDb → Response × WebDb
  judge_post c r m verified origin db =
      if r.require_signature && not verified
      then (unauthorised, reject c r m origin db)
      else if is_own r origin
      then (self_origin, ignore_own c r m verified origin db)
      else (taken db.next_receipt, take_in c r m verified origin db)

  abbrev pub header_map : Incoming → Dict
  header_map m = header_update m.headers []

  abbrev pub origin_of : Incoming → Text
  origin_of m = or_blank (header_get (codes "X-SmallStack-Origin") (header_map m))

  abbrev pub verify_by :
      Moment → WebhookReceiver → Incoming → Option Verifier → WebDb → Response × WebDb
  verify_by c r m none db = (server_error, db)
  verify_by c r m (some verifier) db =
      judge_post c r m (is_verified (verifier m.body (header_map m) r)) (origin_of m) db

  module _ ⦃h : Hooks⦄ where
    unfoldable pub receive_body : Moment → WebhookReceiver → Incoming → WebDb → Response × WebDb
    receive_body c r m db =
        if ltb s.inbound_max_bytes (or_zero m.declared) || ltb s.inbound_max_bytes (length m.body)
        then (too_large, db)
        else verify_by c r m (get_verifier r.verifier) db

    abbrev pub after_challenge :
        Moment → WebhookReceiver → Incoming → Option ℕ → WebDb → Response × WebDb
    after_challenge c r m (some code) db = (challenged code, db)
    after_challenge c r m none db = receive_body c r m db

    abbrev pub answer_by : WebhookReceiver → Incoming → Option Challenge → Option ℕ
    answer_by r m none = none
    answer_by r m (some f) = challenge_answer (f m.body m.headers r)

    abbrev pub receive_for : Moment → Option WebhookReceiver → Incoming → WebDb → Response × WebDb
    receive_for c none m db = (not_found, db)
    receive_for c (some r) m db =
        after_challenge c r m (answer_by r m (get_challenge r.challenge)) db

    unfoldable pub incoming_webhook : Moment → Incoming → WebDb → Response × WebDb
    incoming_webhook c m db =
        if not s.webhooks_enabled || not s.inbound
        then (not_found, db)
        else receive_for c (find_first (serves m.slug) db.receivers) m db

-- A write that a handler makes: its event, and whether the view of its model asks for it.
pub record Write : Type 0 where
  pub wanted : Bool
  pub event : SiteEvent

abbrev pub receipt_key : ℕ → WebhookReceipt → Bool
receipt_key k receipt = receipt.id == k

unfoldable pub mark_receipt : ℕ → ReceiptStatus → ReceiptError → WebDb → WebDb
mark_receipt k status error db = record db {
  receipts =
      update_where (receipt_key k) (λ x. record x { status = status; error = error }) db.receipts;
}

-- `receipt.save(update_fields=["status"])`
unfoldable pub mark_processed : ℕ → WebDb → WebDb
mark_processed k db = record db {
  receipts = update_where (receipt_key k) (λ x. record x { status = processed }) db.receipts;
}

-- What a handler does with a receipt: its writes, and whether it raises behind them.
abbrev pub Handling : Type 0
Handling = WebhookReceipt → List Write × Bool

abbrev pub handled : ℕ → Bool → WebDb → WebDb
handled k true db = mark_receipt k failed handler_raised db
handled k false db = mark_processed k db

-- The handler's block: deeper by one, unless it cascades.
abbrev pub depth_for : Bool → ℕ → ℕ
depth_for true depth = depth
depth_for false depth = depth + 1

-- The depth of `suppress_webhooks` blocks around a write.
abbrev pub is_suppressed : ℕ → Bool
is_suppressed depth = ltb 0 depth

module _ ⦃o : Outside⦄ ⦃s : WebSettings⦄ where
  -- `_fire` of signals.py
  unfoldable pub fire_write : Moment → ℕ → Write → WebDb → WebDb
  fire_write c depth w db =
      let sent = (fan_out c w.event db).1 in
      if is_suppressed depth || not w.wanted then db else sent

  unfoldable pub fire_writes : Moment → ℕ → List Write → WebDb → WebDb
  fire_writes c depth [] db = db
  fire_writes c depth (w ∷ rest) db = fire_writes c depth rest (fire_write c depth w db)

  abbrev pub run_handler : Moment → ℕ → Handling → WebhookReceipt → Option Bool → WebDb → WebDb
  run_handler c depth f x none db = mark_receipt x.id failed no_handler db
  run_handler c depth f x (some cascade) db =
      handled x.id (f x).1 (fire_writes c (depth_for cascade depth) (f x).0 db)

  module _ ⦃h : Hooks⦄ where
    abbrev pub handler_name : WebhookReceiver → Text
    handler_name r = if is_empty r.handler then r.slug else r.handler

    abbrev pub dispatch_to :
        Moment → ℕ → Handling → WebhookReceipt → Option WebhookReceiver → WebDb → WebDb
    dispatch_to c depth f x none db = db
    dispatch_to c depth f x (some r) db = run_handler c depth f x (get_handler (handler_name r)) db

    abbrev pub dispatch_found : Moment → ℕ → Handling → Option WebhookReceipt → WebDb → WebDb
    dispatch_found c depth f none db = db
    dispatch_found c depth f (some x) db =
        dispatch_to c depth f x (find_first (receiver_key x.receiver_id) db.receivers) db

    -- `depth` is that of the worker's thread.
    unfoldable pub dispatch_incoming : Moment → ℕ → Handling → ℕ → WebDb → WebDb
    dispatch_incoming c depth f k db =
        dispatch_found c depth f (find_first (receipt_key k) db.receipts) db
