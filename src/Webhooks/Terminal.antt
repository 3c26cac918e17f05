-- ===== src/Webhooks/Terminal.antt =====
-- A delivery that has succeeded or died stays as it is (apps/webhooks/services.py and tasks.py).
use cwstation.Prelude.{
  ℕ, ◌+◌, ◌≤◌, ◌≡◌, refl, ap, ◌∙◌, Bool, true, false, not, ◌||◌, Option, none, some, List, [], ◌∷◌,
  ◌++◌, Text, if◌then◌else◌, find_first, filter_where, any_where, count_where, update_where,
  map_some, all_where-find_first, find_first_sound, any_where-find_first, find_first-update_where,
  Bool-cases, inl, inr, arith,
}
use cwstation.Webhooks.Model.{
  WebhookEndpoint, WebhookDelivery, is_terminal, WebDb, delivery_key, Outside, WebSettings,
}
use cwstation.Webhooks.Send.{Moment, Attempt}
use cwstation.Webhooks.Deliver.{save_outcome, fate_of, record_attempt}
use cwstation.Webhooks.Guard.{matches_event}
use cwstation.Webhooks.Services.{
  SiteEvent, create_and_enqueue, fan_out_to, fan_out, claim_at, claim_delivery, still_at, claimed,
  replay_delivery, send_probe,
}
use cwstation.Webhooks.Sound.{sound}
use cwstation.Webhooks.Steps.{
  History, Step, fires, replays, probes, claims, starts, finishes, breaks, IsNew, finish_first,
  take_step, take_steps,
}
use cwstation.Webhooks.Counts.{hands, is_key, live_of, create-deliveries}
use cwstation.Webhooks.Ended.{finish_attempt-deliveries}
use cwstation.Webhooks.Claimed.{any-count}
use cwstation.Webhooks.Attempts.{enqueue-deliveries}
use cwstation.Webhooks.Orderly.{Orderly}
use cwstation.Webhooks.Single.{take_step-Orderly, take_steps-Orderly, new-Orderly}

find_first-append {ℓ} :
    {A : Type ℓ} (p : A → Bool) (xs ys : List A) (x : A)
    → find_first p xs ≡ some x
    → find_first p (xs ++ ys) ≡ some x
find_first-append p [] ys x h = cc
find_first-append p (y ∷ xs) ys x h = ground (arith, find_first-append p xs ys x)

-- An update that passes a found row by leaves it to be found.
find_first-passed :
    (q p : WebhookDelivery → Bool) (f : WebhookDelivery → WebhookDelivery)
    (xs : List WebhookDelivery) (d : WebhookDelivery)
    → ((x : WebhookDelivery) → q (f x) ≡ q x)
    → find_first q xs ≡ some d
    → p d ≡ false
    → find_first q (update_where p f xs) ≡ some d
find_first-passed q p f xs d same e miss =
    find_first-update_where q p f same xs
    ∙ ap (map_some (λ x. if p x then f x else x)) e
    ∙ rw miss refl

terminal_cursor :
    (k seen : ℕ) (d : WebhookDelivery)
    → sound d ≡ true
    → is_terminal d.status ≡ true
    → still_at k seen d ≡ false
unfolding sound
terminal_cursor k seen d h e = ground arith

terminal_live :
    (k : ℕ) (ds : List WebhookDelivery) (d : WebhookDelivery)
    → find_first (delivery_key k) ds ≡ some d
    → is_terminal d.status ≡ true
    → count_where (delivery_key k) ds ≤ 1
    → count_where (live_of k) ds ≡ 0
terminal_live k [] d e t u = refl
terminal_live k (x ∷ ds) d e t u = elim (Bool-cases (delivery_key k x)) [
  | inl hit ↦ ground (arith, nothing ds)
  | inr miss ↦ ground (arith, terminal_live k ds d)
]
  where
    nothing :
        (ds : List WebhookDelivery)
        → count_where (delivery_key k) ds ≡ 0
        → count_where (live_of k) ds ≡ 0
    nothing [] z = refl
    nothing (x ∷ ds) z = ground (arith, nothing ds)

-- The row with the key is this one.
StaysAs : ℕ → WebhookDelivery → WebDb → Type 0
StaysAs k d db = find_first (delivery_key k) db.deliveries ≡ some d

create-StaysAs :
    (k : ℕ) (d : WebhookDelivery) (c : Moment) (i : ℕ) (t : Text) (p : ℕ) (e : Option Text) (n : ℕ)
    (db : WebDb)
    → StaysAs k d db
    → StaysAs k d (create_and_enqueue c i t p e n db)
unfolding StaysAs
create-StaysAs k d c i t p e n db h =
    let (x, rows, _, _, _, _) = create-deliveries c i t p e n db in
    rw rows (find_first-append (delivery_key k) db.deliveries (x ∷ []) d h)

claim-StaysAs :
    (k : ℕ) (d : WebhookDelivery) (c : Moment) (copy : WebhookDelivery) (seen : Option ℕ)
    (db : WebDb)
    → sound d ≡ true
    → is_terminal d.status ≡ true
    → StaysAs k d db
    → StaysAs k d (claim_delivery c copy seen db).1
unfolding StaysAs claim_at
claim-StaysAs k d c copy none db ok t h = h
claim-StaysAs k d c copy (some seen) db ok t h =
    elim (Bool-cases (any_where (still_at copy.id seen) db.deliveries)) [
      | inl e ↦
          let claimed_db : WebDb = record db {
            deliveries = update_where (still_at copy.id seen) claimed db.deliveries;
          } in
          let same = enqueue-deliveries c copy.id claimed_db in
          rw (e, same.0)
            (find_first-passed (delivery_key k) (still_at copy.id seen) claimed db.deliveries d
              (λ x. refl) h (terminal_cursor copy.id seen d ok t))
      | inr n ↦ rw n h
    ]

module _ ⦃o : Outside⦄ ⦃s : WebSettings⦄ where
  fan_out_to-StaysAs :
      (k : ℕ) (d : WebhookDelivery) (c : Moment) (e : SiteEvent) (eps : List WebhookEndpoint)
      (n : ℕ) (db : WebDb)
      → StaysAs k d db
      → StaysAs k d (fan_out_to c e eps n db).1
  unfolding fan_out_to
  fan_out_to-StaysAs k d c e [] n db h = h
  fan_out_to-StaysAs k d c e (ep ∷ rest) n db h =
      elim (Bool-cases (matches_event ep e.event_type)) [
        | inl m ↦ rw m (
            fan_out_to-StaysAs k d c e rest (n + 1)
              (create_and_enqueue c ep.id e.event_type e.payload e.event_id s.max_attempts db)
              (create-StaysAs k d c ep.id e.event_type e.payload e.event_id s.max_attempts db h))
        | inr m ↦ rw m (fan_out_to-StaysAs k d c e rest n db h)
      ]

  fan_out-StaysAs :
      (k : ℕ) (d : WebhookDelivery) (c : Moment) (e : SiteEvent) (db : WebDb)
      → StaysAs k d db
      → StaysAs k d (fan_out c e db).1
  unfolding fan_out
  fan_out-StaysAs k d c e db h = elim (Bool-cases (not s.webhooks_enabled || not s.outbound)) [
    | inl off ↦ rw off h
    | inr on ↦
        rw on (fan_out_to-StaysAs k d c e (filter_where (λ ep. ep.enabled) db.endpoints) 0 db h)
  ]

  -- No task for a terminal delivery is under way.
  finish_attempt-StaysAs :
      (k j : ℕ) (d : WebhookDelivery) (c : Moment) (a : Attempt) (h : History)
      (found : Option WebhookDelivery)
      → find_first (delivery_key j) h.running ≡ found
      → Orderly h.db h.running
      → is_terminal d.status ≡ true
      → StaysAs k d h.db
      → StaysAs k d (finish_first j c a found h).db
  unfolding record_attempt StaysAs save_outcome hands
  finish_attempt-StaysAs k j d c a h none e ok t st = st
  finish_attempt-StaysAs k j d c a h (some x) e ok t st =
      let (rows, _, _) =
        finish_attempt-deliveries c x (x.attempt + 1) a (fate_of x (x.attempt + 1) a) h.db in
      let key : x.id ≡ j = ground (arith, find_first_sound (delivery_key j) h.running e) in
      let one : 1 ≤ count_where (delivery_key j) h.running =
        any-count (delivery_key j) h.running (any_where-find_first (delivery_key j) h.running e) in
      let idle : count_where (live_of k) h.db.deliveries ≡ 0 =
        terminal_live k h.db.deliveries d st t (ok.hand.unique k) in
      let own : d.id ≡ k = ground (arith, find_first_sound (delivery_key k) h.db.deliveries st) in
      let apart : delivery_key x.id d ≡ false =
        ground (arith, one, idle, own, key, ok.hand.live k) in
      rw rows (
        find_first-passed (delivery_key k) (delivery_key x.id) _ h.db.deliveries d (λ y. refl) st
          apart)

  row_sound :
      (k : ℕ) (d : WebhookDelivery) (h : History)
      → Orderly h.db h.running
      → StaysAs k d h.db
      → sound d ≡ true
  unfolding StaysAs
  row_sound k d h ok st =
      all_where-find_first sound (delivery_key k) h.db.deliveries d ok.sense.rows st

  take_step-StaysAs :
      (k : ℕ) (d : WebhookDelivery) (h : History) (x : Step)
      → Orderly h.db h.running
      → is_terminal d.status ≡ true
      → StaysAs k d h.db
      → StaysAs k d (take_step h x).db
  unfolding take_step replay_delivery send_probe StaysAs
  take_step-StaysAs k d h (fires c e) ok t st = fan_out-StaysAs k d c e h.db st
  take_step-StaysAs k d h (replays c r) ok t st =
      create-StaysAs k d c r.endpoint_id r.event_type r.payload r.event_id r.max_attempts h.db st
  take_step-StaysAs k d h (probes c n p ep) ok t st = create-StaysAs k d c ep.id n p none 1 h.db st
  take_step-StaysAs k d h (claims c r) ok t st =
      claim-StaysAs k d c r r.next_attempt_at h.db (row_sound k d h ok st) t st
  take_step-StaysAs k d h (starts j) ok t st =
      elim (Bool-cases (any_where (is_key j) h.db.deliver_queue)) [
        | inl e ↦ rw e st
        | inr e ↦ rw e st
      ]
  take_step-StaysAs k d h (finishes j c a) ok t st =
      finish_attempt-StaysAs k j d c a h (find_first (delivery_key j) h.running) refl ok t st
  take_step-StaysAs k d h (breaks j) ok t st = st

  later-StaysAs :
      (k : ℕ) (d : WebhookDelivery) (h : History) (ys : List Step)
      → Orderly h.db h.running
      → is_terminal d.status ≡ true
      → StaysAs k d h.db
      → StaysAs k d (take_steps h ys).db
  unfolding take_steps
  later-StaysAs k d h [] ok t st = st
  later-StaysAs k d h (y ∷ ys) ok t st =
      later-StaysAs k d (take_step h y) ys (take_step-Orderly h y ok) t
        (take_step-StaysAs k d h y ok t st)

  -- Once a delivery has succeeded or is dead, nothing that happens later changes its row: no task,
  -- claim, signal or replay, in any order, from tables without deliveries.
  pub take_steps_terminal :
      (db : WebDb) (xs ys : List Step) (k : ℕ) (d : WebhookDelivery)
      → IsNew db
      → let h = take_steps (record { db = db; running = [] }) xs in
        find_first (delivery_key k) h.db.deliveries ≡ some d
        → is_terminal d.status ≡ true
        → find_first (delivery_key k) (take_steps h ys).db.deliveries ≡ some d
  unfolding StaysAs
  take_steps_terminal db xs ys k d new e t =
      let start : History = record { db = db; running = [] } in
      later-StaysAs k d (take_steps start xs) ys (take_steps-Orderly start xs (new-Orderly db new))
        t e
