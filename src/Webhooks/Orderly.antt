-- ===== src/Webhooks/Orderly.antt =====
-- What the steps of webhook deliveries keep (apps/webhooks/services.py and tasks.py).
use cwstation.Prelude.{
  ℕ, ◌+◌, ◌≤◌, ◌≡◌, refl, Bool, true, false, not, ◌&&◌, ◌||◌, Option, none, some, List, [], ◌∷◌,
  Text, ◌==◌, find_first, filter_where, any_where, all_where, count_where, all_where-find_first,
  find_first_sound, Bool-cases, Option-cases, inl, inr, arith,
}
use cwstation.Webhooks.Model.{
  WebhookEndpoint, WebhookDelivery, WebDb, delivery_key, Outside, WebSettings,
}
use cwstation.Webhooks.Send.{Moment, Attempt}
use cwstation.Webhooks.Deliver.{
  status_of, cursor_of, load_delivery, save_outcome, fate_of, record_attempt,
}
use cwstation.Webhooks.Services.{SiteEvent, create_and_enqueue, fan_out_to, fan_out, claim_delivery}
use cwstation.Webhooks.Guard.{matches_event}
use cwstation.Webhooks.Sound.{sound, is_set, sound_as}
use cwstation.Webhooks.Steps.{take_one, with_copy}
use cwstation.Webhooks.Counts.{
  InOneHand, hands, is_key, count-take_one, count-take_one-le, create-InOneHand,
}
use cwstation.Webhooks.Claimed.{claim_at-InOneHand}
use cwstation.Webhooks.Ended.{finish_attempt-deliveries}
use cwstation.Webhooks.Attempts.{
  Sensible, agrees_with, copy_fits, id_below, all_where-take_one, all_where-and, all_where-updated,
  same_rows, same_ids, create-Sensible, claim_at-Sensible, fate_sound,
}

-- Both invariants together.
pub record Orderly (db : WebDb) (running : List WebhookDelivery) : Type 0 where
  pub hand : InOneHand db running
  pub sense : Sensible db running

agrees_apart : (c row : WebhookDelivery) → delivery_key c.id row ≡ false → agrees_with c row ≡ true
agrees_apart c row e = ground arith

-- No other row has the key of the row that a query by key finds.
agrees_found :
    (k : ℕ) (d : WebhookDelivery) (ds : List WebhookDelivery)
    → d.id ≡ k
    → count_where (delivery_key k) ds ≤ 1
    → find_first (delivery_key k) ds ≡ some d
    → all_where (agrees_with d) ds ≡ true
agrees_found k d [] e u f = cc
agrees_found k d (x ∷ xs) e u f = elim (Bool-cases (delivery_key k x)) [
  | inl hit ↦ ground (arith, others xs)
  | inr miss ↦ ground (arith, agrees_found k d xs e)
]
  where
    others :
        (xs : List WebhookDelivery)
        → count_where (delivery_key k) xs ≡ 0
        → all_where (agrees_with d) xs ≡ true
    others [] z = refl
    others (x ∷ xs) z = ground (arith, others xs)

load_fits :
    (k : ℕ) (db : WebDb) (running : List WebhookDelivery) (d : WebhookDelivery)
    → Orderly db running
    → load_delivery k db ≡ some d
    → (d.id ≡ k) × (copy_fits db.next_delivery db.deliveries d ≡ true)
unfolding load_delivery
load_fits k db running d h e = elim (Option-cases (find_first (delivery_key k) db.deliveries)) [
  | inl n ↦ ground (arith, n)
  | inr (x, n) ↦
      let id : x.id ≡ k = ground (arith, find_first_sound (delivery_key k) db.deliveries n) in
      let ok : sound x ≡ true =
        all_where-find_first sound (delivery_key k) db.deliveries x h.sense.rows n in
      let below : id_below db.next_delivery x ≡ true =
        all_where-find_first (id_below db.next_delivery) (delivery_key k) db.deliveries x
          h.sense.ids n in
      let alone : all_where (agrees_with x) db.deliveries ≡ true =
        agrees_found k x db.deliveries id (h.hand.unique k) n in
      ground (arith, n)
]

both : {a b : Bool} → a ≡ true → b ≡ true → (a && b) ≡ true
both e f = ground arith

-- A task that a worker takes out of the queue, with the copy that it loads.
pub start_hands :
    (k : ℕ) (db db' : WebDb) (running : List WebhookDelivery) (o : Option WebhookDelivery)
    → db'.deliveries ≡ db.deliveries
    → db'.next_delivery ≡ db.next_delivery
    → db'.deliver_queue ≡ take_one (is_key k) db.deliver_queue
    → any_where (is_key k) db.deliver_queue ≡ true
    → load_delivery k db ≡ o
    → Orderly db running
    → Orderly db' (with_copy o running)
unfolding hands
start_hands k db db' running none e f q there load h = record {
  hand = record {
    live = λ j.
        rw (e, q)
          (omega (arith, h.hand.live j, count-take_one-le (is_key k) (is_key j) db.deliver_queue));
    unique = λ j. rw e (h.hand.unique j);
    fresh = λ j le. rw e (h.hand.fresh j (rw f at le));
  };
  sense = record {
    rows = rw e h.sense.rows;
    ids = rw (e, f) h.sense.ids;
    copies = rw (e, f) h.sense.copies;
  };
}
start_hands k db db' running (some d) e f q there load h =
    let fits = load_fits k db running d h load in
    let same_fits : copy_fits db'.next_delivery db'.deliveries d ≡ true = rw (e, f) fits.1 in
    let same_copies : all_where (copy_fits db'.next_delivery db'.deliveries) running ≡ true =
      rw (e, f) h.sense.copies in
    record {
      hand = record {
        live = λ j.
            rw (e, q)
              (elim (Bool-cases (k == j)) [
                | inl same ↦
                    let here : k ≡ j = ground arith in
                    ground (
                      arith,
                      fits.0,
                      here,
                      h.hand.live k,
                      count-take_one (is_key k) db.deliver_queue there,
                    )
                | inr other ↦ ground (
                  arith,
                  fits.0,
                  other,
                  h.hand.live j,
                  count-take_one-le (is_key k) (is_key j) db.deliver_queue,
                )
              ]);
        unique = λ j. rw e (h.hand.unique j);
        fresh = λ j le. rw e (h.hand.fresh j (rw f at le));
      };
      sense = record {
        rows = rw e h.sense.rows;
        ids = rw (e, f) h.sense.ids;
        copies = both same_fits same_copies;
      };
    }

pub breaks-Orderly :
    (k : ℕ) (db : WebDb) (running : List WebhookDelivery)
    → Orderly db running
    → Orderly db (take_one (delivery_key k) running)
unfolding hands
breaks-Orderly k db running h = record {
  hand = record {
    live = λ j.
        omega (arith, h.hand.live j, count-take_one-le (delivery_key k) (delivery_key j) running);
    unique = h.hand.unique;
    fresh = h.hand.fresh;
  };
  sense = record {
    rows = h.sense.rows;
    ids = h.sense.ids;
    copies =
        all_where-take_one (copy_fits db.next_delivery db.deliveries) (delivery_key k) running
          h.sense.copies;
  };
}

pub create-Orderly :
    (c : Moment) (i : ℕ) (t : Text) (p : ℕ) (e : Option Text) (n : ℕ) (db : WebDb)
    (running : List WebhookDelivery)
    → Orderly db running
    → Orderly (create_and_enqueue c i t p e n db) running
create-Orderly c i t p e n db running h = record {
  hand = create-InOneHand c i t p e n db running h.hand;
  sense = create-Sensible c i t p e n db running h.sense;
}

pub claim-Orderly :
    (c : Moment) (d : WebhookDelivery) (seen : Option ℕ) (db : WebDb)
    (running : List WebhookDelivery)
    → Orderly db running
    → Orderly (claim_delivery c d seen db).1 running
claim-Orderly c d none db running h = h
claim-Orderly c d (some seen) db running h = record {
  hand = claim_at-InOneHand c d.id seen db running h.sense.rows h.hand;
  sense = claim_at-Sensible c d.id seen db running h.sense;
}

module _ ⦃o : Outside⦄ ⦃s : WebSettings⦄ where
  fan_out_to-Orderly :
      (c : Moment) (e : SiteEvent) (eps : List WebhookEndpoint) (n : ℕ) (db : WebDb)
      (running : List WebhookDelivery)
      → Orderly db running
      → Orderly (fan_out_to c e eps n db).1 running
  unfolding fan_out_to
  fan_out_to-Orderly c e [] n db running h = h
  fan_out_to-Orderly c e (ep ∷ rest) n db running h =
      elim (Bool-cases (matches_event ep e.event_type)) [
        | inl m ↦ rw m (
            fan_out_to-Orderly c e rest (n + 1)
              (create_and_enqueue c ep.id e.event_type e.payload e.event_id s.max_attempts db)
              running
              (create-Orderly c ep.id e.event_type e.payload e.event_id s.max_attempts db running
                h))
        | inr m ↦ rw m (fan_out_to-Orderly c e rest n db running h)
      ]

  pub fan_out-Orderly :
      (c : Moment) (e : SiteEvent) (db : WebDb) (running : List WebhookDelivery)
      → Orderly db running
      → Orderly (fan_out c e db).1 running
  unfolding fan_out
  fan_out-Orderly c e db running h = elim (Bool-cases (not s.webhooks_enabled || not s.outbound)) [
    | inl off ↦ rw off h
    | inr on ↦
        rw on (fan_out_to-Orderly c e (filter_where (λ ep. ep.enabled) db.endpoints) 0 db running h)
  ]

  -- The row that an attempt saves.
  saved_sound :
      (c : Moment) (d : WebhookDelivery) (a : Attempt) (x : WebhookDelivery) (next : ℕ)
      (ds : List WebhookDelivery)
      → copy_fits next ds d ≡ true
      → (sound x && agrees_with d x) ≡ true
      → delivery_key d.id x ≡ true
      → sound_as
          (status_of (fate_of d (d.attempt + 1) a))
          (d.attempt + 1)
          x.max_attempts
          (is_set (cursor_of c.now (fate_of d (d.attempt + 1) a)))
        ≡ true
  saved_sound c d a x next ds fits ok hit =
      let same : x.max_attempts ≡ d.max_attempts = ground arith in
      rw same (fate_sound d a c.now (ground arith) (ground arith))

  pub finish_attempt-Sensible :
      (c : Moment) (d : WebhookDelivery) (a : Attempt) (db : WebDb) (running : List WebhookDelivery)
      → copy_fits db.next_delivery db.deliveries d ≡ true
      → Sensible db running
      → Sensible (record_attempt c d a db) running
  unfolding record_attempt save_outcome sound
  finish_attempt-Sensible c d a db running fits h =
      let (rows, queue, next) =
        finish_attempt-deliveries c d (d.attempt + 1) a (fate_of d (d.attempt + 1) a) db in
      record {
        rows = rw rows (
            all_where-updated (λ x. sound x && agrees_with d x) sound (delivery_key d.id) _
              (λ x ok hit. saved_sound c d a x db.next_delivery db.deliveries fits ok hit)
              (λ x ok miss. ground arith) db.deliveries
              (all_where-and sound (agrees_with d) db.deliveries h.rows (ground arith)));
        ids =
            rw (rows, next)
              (same_ids (delivery_key d.id) _ (λ x. refl) db.next_delivery db.deliveries h.ids);
        copies =
            rw (rows, next)
              (same_rows (delivery_key d.id) _ (λ x. refl) (λ x. refl) db.next_delivery
                db.deliveries running h.copies);
      }
