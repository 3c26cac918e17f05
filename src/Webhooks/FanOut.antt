-- ===== src/Webhooks/FanOut.antt =====
-- Which deliveries an event and a bulk replay make (`fan_out` and `replay_dead` of
-- apps/webhooks/services.py).
use cwstation.Prelude.{
  ℕ, ◌+◌, ◌≡◌, refl, sym, ap, ◌∙◌, true, false, not, ◌||◌, Option, List, [], ◌∷◌, ◌++◌,
  append_assoc, append-nil, map, Text, filter_where, length, Bool-cases, inl, inr, arith,
}
use cwstation.Webhooks.Model.{
  DeliveryStatus, pending, WebhookEndpoint, WebhookDelivery, WebDb, Outside, WebSettings,
}
use cwstation.Webhooks.Send.{Moment}
use cwstation.Webhooks.Guard.{matches_event}
use cwstation.Webhooks.Services.{
  SiteEvent, new_delivery, create_delivery, enqueue_delivery, create_and_enqueue, fan_out_to,
  fan_out, subscribes,
}

-- What a receiver and the worker see of a new delivery.
pub record Outgoing : Type 0 where
  pub endpoint_id : ℕ
  pub event_type : Text
  pub payload : ℕ
  pub event_id : Option Text
  pub status : DeliveryStatus
  pub attempt : ℕ
  pub max_attempts : ℕ

abbrev pub outgoing : WebhookDelivery → Outgoing
outgoing d = record {
  endpoint_id = d.endpoint_id;
  event_type = d.event_type;
  payload = d.payload;
  event_id = d.event_id;
  status = d.status;
  attempt = d.attempt;
  max_attempts = d.max_attempts;
}

-- A new delivery of the same content.
abbrev pub afresh : WebhookDelivery → Outgoing
afresh d = record {
  endpoint_id = d.endpoint_id;
  event_type = d.event_type;
  payload = d.payload;
  event_id = d.event_id;
  status = pending;
  attempt = 0;
  max_attempts = d.max_attempts;
}

enqueued_rows :
    (c : Moment) (k : ℕ) (db : WebDb) → (enqueue_delivery c k db).deliveries ≡ db.deliveries
unfolding enqueue_delivery
enqueued_rows c k db = ground arith

created_rows :
    (c : Moment) (i : ℕ) (t : Text) (p : ℕ) (e : Option Text) (n : ℕ) (db : WebDb)
    → (create_and_enqueue c i t p e n db).deliveries
      ≡ db.deliveries ++ new_delivery db.next_delivery i t p e n c.now ∷ []
unfolding create_and_enqueue create_delivery
created_rows c i t p e n db = enqueued_rows c db.next_delivery (create_delivery i t p e n c.now db)

-- The rows that have come after the ones of the first tables.
unfoldable pub Adds : WebDb → List WebhookDelivery → WebDb → Type 0
Adds db news db' = db'.deliveries ≡ db.deliveries ++ news

Adds-more :
    (db db₁ db₂ : WebDb) (d : WebhookDelivery) (news : List WebhookDelivery)
    → db₁.deliveries ≡ db.deliveries ++ d ∷ []
    → Adds db₁ news db₂
    → Adds db (d ∷ news) db₂
unfolding Adds
Adds-more db db₁ db₂ d news e h = h ∙ rw e (append_assoc db.deliveries (d ∷ []) news)

Adds-none : (db : WebDb) → Adds db [] db
unfolding Adds
Adds-none db = sym (append-nil db.deliveries)

filter_and :
    ⦃o : Outside⦄ ⦃s : WebSettings⦄ (e : SiteEvent) (eps : List WebhookEndpoint)
    → filter_where (λ ep. matches_event ep e.event_type) (filter_where (λ ep. ep.enabled) eps)
      ≡ filter_where (subscribes e) eps
filter_and e [] = refl
filter_and e (ep ∷ eps) = ground (arith, filter_and e eps)

module _ ⦃o : Outside⦄ ⦃s : WebSettings⦄ where
  -- The delivery that an endpoint gets for an event.
  abbrev pub delivery_for : SiteEvent → WebhookEndpoint → Outgoing
  delivery_for e ep = record {
    endpoint_id = ep.id;
    event_type = e.event_type;
    payload = e.payload;
    event_id = e.event_id;
    status = pending;
    attempt = 0;
    max_attempts = s.max_attempts;
  }

  fan_out_to-Adds :
      (c : Moment) (e : SiteEvent) (eps : List WebhookEndpoint) (n : ℕ) (db : WebDb)
      → (news : List WebhookDelivery) × Adds db news (fan_out_to c e eps n db).1
        × (map outgoing news
            ≡ map (delivery_for e) (filter_where (λ ep. matches_event ep e.event_type) eps))
        × ((fan_out_to c e eps n db).0 ≡ n + length news)
  unfolding fan_out_to
  fan_out_to-Adds c e [] n db = ([], Adds-none db, refl, omega arith)
  fan_out_to-Adds c e (ep ∷ rest) n db = elim (Bool-cases (matches_event ep e.event_type)) [
    | inl m ↦
        let first : WebDb =
          create_and_enqueue c ep.id e.event_type e.payload e.event_id s.max_attempts db in
        let row : WebhookDelivery =
          new_delivery db.next_delivery ep.id e.event_type e.payload e.event_id s.max_attempts
            c.now in
        let more = fan_out_to-Adds c e rest (n + 1) first in
        rw m (
          (
            row ∷ more.0,
            Adds-more db first (fan_out_to c e rest (n + 1) first).1 row more.0
                (created_rows c ep.id e.event_type e.payload e.event_id s.max_attempts db) more.1,
            ap (λ t. outgoing row ∷ t) more.2,
            omega (arith, more.3),
          ))
    | inr m ↦ rw m (fan_out_to-Adds c e rest n db)
  ]

  -- When outgoing webhooks are on, an event makes exactly one delivery for each endpoint that is
  -- enabled and whose filter matches it, in the order of the endpoints, each with the event's type,
  -- payload and id and no attempt yet; it changes no other delivery and returns how many it made.
  pub fan_out-subscribes :
      (c : Moment) (e : SiteEvent) (db : WebDb)
      → s.webhooks_enabled ≡ true
      → s.outbound ≡ true
      → (news : List WebhookDelivery) × ((fan_out c e db).1.deliveries ≡ db.deliveries ++ news)
        × (map outgoing news ≡ map (delivery_for e) (filter_where (subscribes e) db.endpoints))
        × ((fan_out c e db).0 ≡ length news)
  unfolding fan_out Adds
  fan_out-subscribes c e db on out =
      let made = fan_out_to-Adds c e (filter_where (λ ep. ep.enabled) db.endpoints) 0 db in
      let going : (not s.webhooks_enabled || not s.outbound) ≡ false = ground arith in
      rw going (
        made.0,
        made.1,
        made.2 ∙ ap (map (delivery_for e)) (filter_and e db.endpoints),
        omega (arith, made.3),
      )
