-- ===== src/Webhooks/Services.antt =====
-- Fan-out, the retry tick and replays (apps/webhooks/services.py).
use cwstation.Prelude.{
  ℕ, ◌+◌, Bool, true, false, not, ◌&&◌, ◌||◌, Option, none, some, List, [], ◌∷◌, ◌++◌, Text, leb,
  ◌==◌, if◌then◌else◌, update_where, filter_where, any_where, take,
}
use cwstation.Webhooks.Model.{
  pending, WebhookEndpoint, WebhookDelivery, no_error, is_retrying, is_dead_delivery, WebDb,
  Outside, WebSettings,
}
use cwstation.Webhooks.Guard.{matches_event}
use cwstation.Webhooks.Send.{Moment}

-- A row with the defaults of the model.
abbrev pub new_delivery : ℕ → ℕ → Text → ℕ → Option Text → ℕ → ℕ → WebhookDelivery
new_delivery key endpoint_id event_type payload event_id max_attempts now = record {
  id = key;
  endpoint_id = endpoint_id;
  event_type = event_type;
  payload = payload;
  event_id = event_id;
  status = pending;
  attempt = 0;
  max_attempts = max_attempts;
  next_attempt_at = none;
  response_status = none;
  response_ms = none;
  error = no_error;
  created_at = now;
}

-- `WebhookDelivery.objects.create`
unfoldable pub create_delivery : ℕ → Text → ℕ → Option Text → ℕ → ℕ → WebDb → WebDb
create_delivery endpoint_id event_type payload event_id max_attempts now db = record db {
  deliveries =
      db.deliveries
      ++ new_delivery db.next_delivery endpoint_id event_type payload event_id max_attempts now
        ∷ [];
  next_delivery = db.next_delivery + 1;
}

-- `_enqueue_delivery`: best effort.
unfoldable pub enqueue_delivery : Moment → ℕ → WebDb → WebDb
enqueue_delivery c k db =
    if c.broker k then record db { deliver_queue = db.deliver_queue ++ k ∷ [] } else db

-- A new row, and its task.
unfoldable pub create_and_enqueue : Moment → ℕ → Text → ℕ → Option Text → ℕ → WebDb → WebDb
create_and_enqueue c endpoint_id event_type payload event_id max_attempts db =
    enqueue_delivery c db.next_delivery
      (create_delivery endpoint_id event_type payload event_id max_attempts c.now db)

-- An event, with what the signal handler makes of it.
pub record SiteEvent : Type 0 where
  pub event_type : Text
  pub payload : ℕ
  pub event_id : Option Text

module _ ⦃o : Outside⦄ ⦃s : WebSettings⦄ where
  abbrev pub subscribes : SiteEvent → WebhookEndpoint → Bool
  subscribes e ep = ep.enabled && matches_event ep e.event_type

  -- The loop, with the number of deliveries so far.
  unfoldable pub fan_out_to : Moment → SiteEvent → List WebhookEndpoint → ℕ → WebDb → ℕ × WebDb
  fan_out_to c e [] created db = (created, db)
  fan_out_to c e (ep ∷ rest) created db =
      let skipped = fan_out_to c e rest created db in
      let sent =
        fan_out_to c e rest (created + 1)
          (create_and_enqueue c ep.id e.event_type e.payload e.event_id s.max_attempts db) in
      if matches_event ep e.event_type then sent else skipped

  unfoldable pub fan_out : Moment → SiteEvent → WebDb → ℕ × WebDb
  fan_out c e db =
      if not s.webhooks_enabled || not s.outbound
      then (0, db)
      else fan_out_to c e (filter_where (λ ep. ep.enabled) db.endpoints) 0 db

abbrev pub has_cursor : Option ℕ → ℕ → Bool
has_cursor none t = false
has_cursor (some u) t = u == t

abbrev pub cursor_reached : ℕ → Option ℕ → Bool
cursor_reached now none = false
cursor_reached now (some t) = leb t now

abbrev pub delivery_is_due : ℕ → WebhookDelivery → Bool
delivery_is_due now d = is_retrying d.status && cursor_reached now d.next_attempt_at

-- The filter of the conditional update.
abbrev pub still_at : ℕ → ℕ → WebhookDelivery → Bool
still_at k observed d = d.id == k && has_cursor d.next_attempt_at observed

abbrev pub claimed : WebhookDelivery → WebhookDelivery
claimed d = record d { status = pending; next_attempt_at = none }

-- The claim of a row by its copy: whether it won, and the tables behind it and its enqueue.
unfoldable pub claim_at : Moment → ℕ → ℕ → WebDb → Bool × WebDb
claim_at c k observed db =
    if any_where (still_at k observed) db.deliveries
    then (
      true,
      enqueue_delivery c k
          (record db { deliveries = update_where (still_at k observed) claimed db.deliveries }),
    )
    else (false, db)

-- The copies of a tick have a cursor.
abbrev pub claim_delivery : Moment → WebhookDelivery → Option ℕ → WebDb → Bool × WebDb
claim_delivery c d none db = (false, db)
claim_delivery c d (some observed) db = claim_at c d.id observed db

abbrev pub one_more : Bool → ℕ → ℕ
one_more true n = n + 1
one_more false n = n

unfoldable pub claim_deliveries : Moment → List WebhookDelivery → ℕ → WebDb → ℕ × WebDb
claim_deliveries c [] n db = (n, db)
claim_deliveries c (d ∷ rest) n db =
    let r = claim_delivery c d d.next_attempt_at db in claim_deliveries c rest (one_more r.0 n) r.1

abbrev cursor_before : Option ℕ → Option ℕ → Bool
cursor_before (some t) (some u) = leb t u
cursor_before _ _ = true

-- `order_by("next_attempt_at")`
unfoldable pub insert_by_cursor : WebhookDelivery → List WebhookDelivery → List WebhookDelivery
insert_by_cursor d [] = d ∷ []
insert_by_cursor d (e ∷ rest) =
    let later = insert_by_cursor d rest in
    if cursor_before d.next_attempt_at e.next_attempt_at then d ∷ e ∷ rest else e ∷ later

unfoldable pub order_by_cursor : List WebhookDelivery → List WebhookDelivery
order_by_cursor [] = []
order_by_cursor (d ∷ rest) = insert_by_cursor d (order_by_cursor rest)

-- The copies that a tick loads.
unfoldable pub due_deliveries : ℕ → ℕ → WebDb → List WebhookDelivery
due_deliveries now limit db =
    take limit (order_by_cursor (filter_where (delivery_is_due now) db.deliveries))

unfoldable pub run_due_deliveries : ⦃s : WebSettings⦄ → Moment → ℕ → WebDb → ℕ × WebDb
run_due_deliveries ⦃s⦄ c limit db =
    if not s.webhooks_enabled
    then (0, db)
    else claim_deliveries c (due_deliveries c.now limit db) 0 db

-- The new delivery's key, and the tables.
unfoldable pub replay_delivery : Moment → WebhookDelivery → WebDb → ℕ × WebDb
replay_delivery c d db = (
  db.next_delivery,
  create_and_enqueue c d.endpoint_id d.event_type d.payload d.event_id d.max_attempts db,
)

unfoldable pub replay_all : Moment → List WebhookDelivery → WebDb → List ℕ × WebDb
replay_all c [] db = ([], db)
replay_all c (d ∷ rest) db =
    let first = replay_delivery c d db in
    let more = replay_all c rest first.1 in (first.0 ∷ more.0, more.1)

abbrev pub of_endpoint : Option ℕ → WebhookDelivery → Bool
of_endpoint none d = true
of_endpoint (some k) d = d.endpoint_id == k

abbrev pub created_since : Option ℕ → WebhookDelivery → Bool
created_since none d = true
created_since (some t) d = leb t d.created_at

-- Ascending by `created_at`, equal times in the table's order.
insert_created : WebhookDelivery → List WebhookDelivery → List WebhookDelivery
insert_created d [] = d ∷ []
insert_created d (e ∷ rest) =
    let later = insert_created d rest in
    if leb d.created_at e.created_at then d ∷ e ∷ rest else e ∷ later

unfoldable pub order_created : List WebhookDelivery → List WebhookDelivery
unfolding insert_created
order_created [] = []
order_created (d ∷ rest) = insert_created d (order_created rest)

abbrev pub dead_deliveries : Option ℕ → Option ℕ → WebDb → List WebhookDelivery
dead_deliveries endpoint_id since db = order_created (
    filter_where
      (λ d. is_dead_delivery d.status && (of_endpoint endpoint_id d && created_since since d))
      db.deliveries)

unfoldable pub replay_dead : Moment → Option ℕ → Option ℕ → ℕ → WebDb → List ℕ × WebDb
replay_dead c endpoint_id since limit db =
    replay_all c (take limit (dead_deliveries endpoint_id since db)) db

-- `pair_verify` and the view `test_endpoint`: one attempt only. `payload` is the sample's JSON.
unfoldable pub send_probe : Moment → Text → ℕ → WebhookEndpoint → WebDb → ℕ × WebDb
send_probe c event_type payload ep db =
    (db.next_delivery, create_and_enqueue c ep.id event_type payload none 1 db)
