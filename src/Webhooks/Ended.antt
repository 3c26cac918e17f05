-- ===== src/Webhooks/Ended.antt =====
-- The end of a task keeps each delivery in one hand (`_record_attempt` of apps/webhooks/tasks.py).
use cwstation.Prelude.{
  ℕ, ◌+◌, ◌≤◌, ◌≡◌, refl, ◌∙◌, true, some, List, [], ◌∷◌, ◌==◌, if◌then◌else◌, any_where,
  count_where, update_where, Bool-cases, inl, inr, arith,
}
use cwstation.Webhooks.Model.{
  WebhookDelivery, WebDb, delivery_key, Outside, WebSettings, retrying, dead,
}
use cwstation.Webhooks.Send.{Moment, Attempt}
use cwstation.Webhooks.Deliver.{
  status_of, count_failure, cursor_of, Fate, succeeds, gives_up, waits, save_outcome,
  finish_attempt, announce, notify_dead, bump_endpoint, auto_disable, update_endpoint,
}
use cwstation.Webhooks.Steps.{take_one}
use cwstation.Webhooks.Counts.{
  is_key, retries_of, live_of, hands, InOneHand, live_bound, count-take_one, count-take_one-le,
}

-- What the save of an attempt makes of the rows.
abbrev fate_live : Fate → ℕ → ℕ
fate_live (waits n) count = count
fate_live succeeds count = 0
fate_live gives_up count = 0

saved_counts :
    (c : Moment) (k0 n : ℕ) (a : Attempt) (fate : Fate) (k : ℕ) (db : WebDb)
    → let ds = (save_outcome k0 n a c fate db).deliveries in
      (count_where (delivery_key k) ds ≡ count_where (delivery_key k) db.deliveries)
      × (count_where (retries_of k) ds ≡ (
          if k0 == k
          then fate_live fate (count_where (delivery_key k) db.deliveries)
          else count_where (retries_of k) db.deliveries))
      × (count_where (live_of k) ds ≡ (
          if k0 == k
          then fate_live fate (count_where (delivery_key k) db.deliveries)
          else count_where (live_of k) db.deliveries))
unfolding save_outcome
saved_counts c k0 n a fate k db = go fate db.deliveries
  where
    saved : Fate → WebhookDelivery → WebhookDelivery
    saved fate d = record d {
      attempt = n;
      response_status = a.status_code;
      response_ms = some c.elapsed_ms;
      error = a.error;
      status = status_of fate;
      next_attempt_at = cursor_of c.now fate;
    }

    go :
        (fate : Fate) (xs : List WebhookDelivery)
        → let ds = update_where (delivery_key k0) (saved fate) xs in
          (count_where (delivery_key k) ds ≡ count_where (delivery_key k) xs)
          × (count_where (retries_of k) ds ≡ (
              if k0 == k
              then fate_live fate (count_where (delivery_key k) xs)
              else count_where (retries_of k) xs))
          × (count_where (live_of k) ds ≡ (
              if k0 == k
              then fate_live fate (count_where (delivery_key k) xs)
              else count_where (live_of k) xs))
    go succeeds [] = ground arith
    go gives_up [] = ground arith
    go (waits n) [] = ground arith
    go succeeds (d ∷ xs) = ground (arith, go succeeds xs)
    go gives_up (d ∷ xs) = ground (arith, go gives_up xs)
    go (waits w) (d ∷ xs) = ground (arith, go (waits w) xs)

module _ ⦃o : Outside⦄ ⦃s : WebSettings⦄ where
  auto_disable-deliveries :
      (k : ℕ) (db : WebDb)
      → ((auto_disable k db).deliveries ≡ db.deliveries)
        × ((auto_disable k db).deliver_queue ≡ db.deliver_queue)
        × ((auto_disable k db).next_delivery ≡ db.next_delivery)
  unfolding auto_disable update_endpoint
  auto_disable-deliveries k db = ground arith

  bump_endpoint-deliveries :
      (k : ℕ) (c : Moment) (fate : Fate) (db : WebDb)
      → ((bump_endpoint k c fate db).deliveries ≡ db.deliveries)
        × ((bump_endpoint k c fate db).deliver_queue ≡ db.deliver_queue)
        × ((bump_endpoint k c fate db).next_delivery ≡ db.next_delivery)
  unfolding bump_endpoint update_endpoint
  bump_endpoint-deliveries k c succeeds db = (refl, refl, refl)
  bump_endpoint-deliveries k c gives_up db =
      auto_disable-deliveries k (update_endpoint k (count_failure c.now dead) db)
  bump_endpoint-deliveries k c (waits n) db =
      auto_disable-deliveries k (update_endpoint k (count_failure c.now retrying) db)

  announce-deliveries :
      (c : Moment) (fate : Fate) (db : WebDb)
      → ((announce c fate db).deliveries ≡ db.deliveries)
        × ((announce c fate db).deliver_queue ≡ db.deliver_queue)
        × ((announce c fate db).next_delivery ≡ db.next_delivery)
  unfolding announce notify_dead
  announce-deliveries c succeeds db = (refl, refl, refl)
  announce-deliveries c gives_up db = ground arith
  announce-deliveries c (waits n) db = (refl, refl, refl)

  -- Behind its save, an attempt touches neither deliveries nor their tasks.
  pub finish_attempt-deliveries :
      (c : Moment) (d : WebhookDelivery) (n : ℕ) (a : Attempt) (fate : Fate) (db : WebDb)
      → let after = finish_attempt c d n a fate db in
        (after.deliveries ≡ (save_outcome d.id n a c fate db).deliveries)
        × (after.deliver_queue ≡ db.deliver_queue)
        × (after.next_delivery ≡ db.next_delivery)
  unfolding finish_attempt save_outcome
  finish_attempt-deliveries c d n a fate db =
      let saved : WebDb = save_outcome d.id n a c fate db in
      let bumped = bump_endpoint-deliveries d.endpoint_id c fate saved in
      let told = announce-deliveries c fate (bump_endpoint d.endpoint_id c fate saved) in
      (told.0 ∙ bumped.0, told.1 ∙ bumped.1, told.2 ∙ bumped.2)

  -- The task that ends was the only one.
  pub finish_attempt-InOneHand :
      (c : Moment) (d : WebhookDelivery) (n : ℕ) (a : Attempt) (fate : Fate) (db : WebDb)
      (running : List WebhookDelivery)
      → any_where (delivery_key d.id) running ≡ true
      → InOneHand db running
      → InOneHand (finish_attempt c d n a fate db) (take_one (delivery_key d.id) running)
  unfolding hands
  finish_attempt-InOneHand c d n a fate db running there h =
      let (rows, queue, next) = finish_attempt-deliveries c d n a fate db in
      record {
        live = λ k. rw (rows, queue) (after_save fate k);
        unique = λ k. rw rows (omega (arith, h.unique k, (saved_counts c d.id n a fate k db).0));
        fresh = λ k le.
            rw rows
              (omega (arith, h.fresh k (rw next at le), (saved_counts c d.id n a fate k db).0));
      }
    where
      after_save :
          (fate : Fate) (k : ℕ)
          → count_where (is_key k) db.deliver_queue
              + count_where (delivery_key k) (take_one (delivery_key d.id) running)
              + count_where (retries_of k) (save_outcome d.id n a c fate db).deliveries
            ≤ count_where (live_of k) (save_outcome d.id n a c fate db).deliveries
      after_save fate k = elim (Bool-cases (d.id == k)) [
        | inl same ↦ ground (
          arith,
          same,
          saved_counts c d.id n a fate k db,
          h.live k,
          h.unique k,
          live_bound k db.deliveries,
          count-take_one (delivery_key k) running,
        )
        | inr other ↦ ground (
          arith,
          other,
          saved_counts c d.id n a fate k db,
          h.live k,
          count-take_one-le (delivery_key d.id) (delivery_key k) running,
        )
      ]
