-- ===== src/Webhooks/Single.antt =====
-- A delivery is never in two hands, and its attempts are bounded, in whatever order ticks, workers,
-- signals and operators follow each other (apps/webhooks/services.py and tasks.py).
use cwstation.Prelude.{
  ℕ, ◌+◌, ◌≤◌, ◌≡◌, refl, sym, subst, true, ◌&&◌, Option, none, some, List, [], ◌∷◌, ◌==◌,
  find_first, any_where, all_where, count_where, all_where-find_first, find_first_sound,
  any_where-find_first, Bool-cases, inl, inr, arith,
}
use cwstation.Webhooks.Model.{
  WebhookDelivery, is_retrying, WebDb, delivery_key, Outside, WebSettings,
}
use cwstation.Webhooks.Send.{Moment, Attempt}
use cwstation.Webhooks.Deliver.{load_delivery, record_attempt, fate_of}
use cwstation.Webhooks.Services.{replay_delivery, send_probe}
use cwstation.Webhooks.Sound.{sound}
use cwstation.Webhooks.Steps.{
  History, Step, fires, replays, probes, claims, starts, finishes, breaks, take_one, IsNew,
  finish_first, take_step, take_steps,
}
use cwstation.Webhooks.Counts.{InOneHand, hands, is_key, live_bound}
use cwstation.Webhooks.Ended.{finish_attempt-InOneHand}
use cwstation.Webhooks.Attempts.{Sensible, copy_fits, all_where-take_one}
use cwstation.Webhooks.Orderly.{
  Orderly, start_hands, breaks-Orderly, create-Orderly, claim-Orderly, fan_out-Orderly,
  finish_attempt-Sensible,
}

module _ ⦃o : Outside⦄ ⦃s : WebSettings⦄ where
  finish_first-Orderly :
      (k : ℕ) (c : Moment) (a : Attempt) (h : History) (found : Option WebhookDelivery)
      → find_first (delivery_key k) h.running ≡ found
      → Orderly h.db h.running
      → Orderly (finish_first k c a found h).db (finish_first k c a found h).running
  unfolding record_attempt
  finish_first-Orderly k c a h none e ok = ok
  finish_first-Orderly k c a h (some d) e ok =
      let fits : copy_fits h.db.next_delivery h.db.deliveries d ≡ true =
        all_where-find_first (copy_fits h.db.next_delivery h.db.deliveries) (delivery_key k)
          h.running d ok.sense.copies e in
      let key : d.id ≡ k = ground (arith, find_first_sound (delivery_key k) h.running e) in
      let there : any_where (delivery_key k) h.running ≡ true =
        any_where-find_first (delivery_key k) h.running e in
      let hand : InOneHand (record_attempt c d a h.db) (take_one (delivery_key d.id) h.running) =
        finish_attempt-InOneHand c d (d.attempt + 1) a (fate_of d (d.attempt + 1) a) h.db h.running
          (subst (λ j. any_where (delivery_key j) h.running ≡ true) (sym key) there) ok.hand in
      let sense : Sensible (record_attempt c d a h.db) h.running =
        finish_attempt-Sensible c d a h.db h.running fits ok.sense in
      record {
        hand =
            subst (λ j. InOneHand (record_attempt c d a h.db) (take_one (delivery_key j) h.running))
              key hand;
        sense = record {
          rows = sense.rows;
          ids = sense.ids;
          copies = all_where-take_one _ (delivery_key k) h.running sense.copies;
        };
      }

  pub take_step-Orderly :
      (h : History) (x : Step)
      → Orderly h.db h.running
      → Orderly (take_step h x).db (take_step h x).running
  unfolding take_step replay_delivery send_probe
  take_step-Orderly h (fires c e) ok = fan_out-Orderly c e h.db h.running ok
  take_step-Orderly h (replays c d) ok =
      create-Orderly c d.endpoint_id d.event_type d.payload d.event_id d.max_attempts h.db h.running
        ok
  take_step-Orderly h (probes c t p ep) ok = create-Orderly c ep.id t p none 1 h.db h.running ok
  take_step-Orderly h (claims c d) ok = claim-Orderly c d d.next_attempt_at h.db h.running ok
  take_step-Orderly h (starts k) ok = elim (Bool-cases (any_where (is_key k) h.db.deliver_queue)) [
    | inl e ↦ rw e (start_hands k h.db _ h.running (load_delivery k h.db) refl refl refl e refl ok)
    | inr e ↦ rw e ok
  ]
  take_step-Orderly h (finishes k c a) ok =
      finish_first-Orderly k c a h (find_first (delivery_key k) h.running) refl ok
  take_step-Orderly h (breaks k) ok = breaks-Orderly k h.db h.running ok

  pub take_steps-Orderly :
      (h : History) (xs : List Step)
      → Orderly h.db h.running
      → Orderly (take_steps h xs).db (take_steps h xs).running
  unfolding take_steps
  take_steps-Orderly h [] ok = ok
  take_steps-Orderly h (x ∷ rest) ok =
      take_steps-Orderly (take_step h x) rest (take_step-Orderly h x ok)

  pub new-Orderly : (db : WebDb) → IsNew db → Orderly db []
  unfolding hands
  new-Orderly db (rows, queue) = record {
    hand = record {
      live = λ k. rw (rows, queue) (omega arith);
      unique = λ k. rw rows (omega arith);
      fresh = λ k le. rw rows refl;
    };
    sense = record { rows = rw rows refl; ids = rw rows refl; copies = refl };
  }

  -- Of the tasks for one delivery at most one is queued or under way at any time, and none while the
  -- delivery waits for a tick, in whatever order signals, replays, the claims of overlapping ticks,
  -- and the starts and ends of tasks follow each other, from tables without deliveries.
  pub take_steps_one_hand :
      (db : WebDb) (xs : List Step) (k : ℕ)
      → IsNew db
      → let h = take_steps (record { db = db; running = [] }) xs in
        count_where (λ j. j == k) h.db.deliver_queue
          + count_where (delivery_key k) h.running
          + count_where (λ d. d.id == k && is_retrying d.status) h.db.deliveries
        ≤ 1
  unfolding hands
  take_steps_one_hand db xs k new =
      let start : History = record { db = db; running = [] } in
      let h = take_steps-Orderly start xs (new-Orderly db new) in
      omega
        (arith, h.hand.live k, h.hand.unique k, live_bound k (take_steps start xs).db.deliveries)

  -- In whatever order ticks, workers, signals and operators act, from tables without deliveries: the
  -- retry cursor of a row is set while it waits for a retry and only then, no row has more attempts
  -- than its bound, or than one where the bound is zero, a row that waits has one left, a row is dead
  -- only when it has used up its attempts, and no row is failed.
  pub take_steps-sound :
      (db : WebDb) (xs : List Step)
      → IsNew db
      → all_where sound (take_steps (record { db = db; running = [] }) xs).db.deliveries ≡ true
  take_steps-sound db xs new =
      (take_steps-Orderly (record { db = db; running = [] }) xs (new-Orderly db new)).sense.rows
