-- ===== src/Webhooks/Counts.antt =====
-- In how many hands a delivery is: queued, under way, or waiting for a tick, and what a new one
-- changes (`_enqueue_delivery` of apps/webhooks/services.py).
use cwstation.Prelude.{
  ℕ, ◌+◌, ◌≤◌, ◌≡◌, refl, Bool, true, false, not, ◌&&◌, Option, none, List, [], ◌∷◌, ◌++◌, Text,
  ◌==◌, if◌then◌else◌, any_where, count_where, count_where-append, Bool-cases, inl, inr, arith,
}
use cwstation.Webhooks.Model.{
  WebhookDelivery, is_terminal, is_retrying, WebDb, delivery_key, pending,
}
use cwstation.Webhooks.Send.{Moment}
use cwstation.Webhooks.Services.{create_delivery, enqueue_delivery, create_and_enqueue}
use cwstation.Webhooks.Steps.{take_one}

abbrev pub is_key : ℕ → ℕ → Bool
is_key k j = j == k

abbrev pub retries_of : ℕ → WebhookDelivery → Bool
retries_of k d = d.id == k && is_retrying d.status

abbrev pub live_of : ℕ → WebhookDelivery → Bool
live_of k d = d.id == k && not (is_terminal d.status)

-- The tasks of a delivery that are queued or under way, and whether it waits for a tick.
unfoldable pub hands : ℕ → WebDb → List WebhookDelivery → ℕ
hands k db running =
    count_where (is_key k) db.deliver_queue
    + count_where (delivery_key k) running
    + count_where (retries_of k) db.deliveries

pub record InOneHand (db : WebDb) (running : List WebhookDelivery) : Type 0 where
  pub live : (k : ℕ) → hands k db running ≤ count_where (live_of k) db.deliveries
  pub unique : (k : ℕ) → count_where (delivery_key k) db.deliveries ≤ 1
  pub fresh : (k : ℕ) → db.next_delivery ≤ k → count_where (delivery_key k) db.deliveries ≡ 0

pub live_bound :
    (k : ℕ) (ds : List WebhookDelivery)
    → count_where (live_of k) ds ≤ count_where (delivery_key k) ds
live_bound k [] = omega arith
live_bound k (d ∷ ds) = ground (arith, live_bound k ds)

pub count-take_one {ℓ} :
    {A : Type ℓ} (p : A → Bool) (xs : List A)
    → any_where p xs ≡ true
    → count_where p xs ≡ 1 + count_where p (take_one p xs)
count-take_one p [] h = cc
count-take_one p (x ∷ xs) h = elim (Bool-cases (p x)) [
  | inl e ↦ ground (arith, e)
  | inr e ↦ ground (arith, e, count-take_one p xs)
]

pub count-take_one-le {ℓ} :
    {A : Type ℓ} (p q : A → Bool) (xs : List A) → count_where q (take_one p xs) ≤ count_where q xs
count-take_one-le p q [] = omega arith
count-take_one-le p q (x ∷ xs) = ground (arith, count-take_one-le p q xs)

new_pending :
    (k next : ℕ) (ds : List WebhookDelivery) (d : WebhookDelivery)
    → d.id ≡ next
    → d.status ≡ pending
    → (count_where (retries_of k) (ds ++ d ∷ []) ≡ count_where (retries_of k) ds)
      × (count_where (live_of k) (ds ++ d ∷ [])
          ≡ count_where (live_of k) ds + (if next == k then 1 else 0))
      × (count_where (delivery_key k) (ds ++ d ∷ [])
          ≡ count_where (delivery_key k) ds + (if next == k then 1 else 0))
new_pending k next ds d e p = ground (
  arith,
  count_where-append (retries_of k) ds (d ∷ []),
  count_where-append (live_of k) ds (d ∷ []),
  count_where-append (delivery_key k) ds (d ∷ []),
)

-- What a row with a fresh key, and perhaps its task, changes.
module _ (c : Moment) (i : ℕ) (t : Text) (p : ℕ) (e : Option Text) (n : ℕ) (db : WebDb) where
  pub create-deliveries :
      (d : WebhookDelivery) × ((create_and_enqueue c i t p e n db).deliveries
        ≡ db.deliveries ++ d ∷ [])
      × (d.id ≡ db.next_delivery)
      × (d.status ≡ pending)
      × (d.attempt ≡ 0)
      × (d.next_attempt_at ≡ none)
  unfolding create_and_enqueue enqueue_delivery create_delivery
  create-deliveries =
      elim (c.broker db.next_delivery)
        as (λ b.
          (d : WebhookDelivery) × ((if b
              then record (create_delivery i t p e n c.now db) {
                deliver_queue =
                    (create_delivery i t p e n c.now db).deliver_queue ++ db.next_delivery ∷ [];
              }
              else create_delivery i t p e n c.now db).deliveries
            ≡ db.deliveries ++ d ∷ [])
          × (d.id ≡ db.next_delivery)
          × (d.status ≡ pending)
          × (d.attempt ≡ 0)
          × (d.next_attempt_at ≡ none)) [
            | true ↦ (_, refl, refl, refl, refl, refl)
            | false ↦ (_, refl, refl, refl, refl, refl)
          ]

  pub create-next_delivery :
      (create_and_enqueue c i t p e n db).next_delivery ≡ db.next_delivery + 1
  unfolding create_and_enqueue enqueue_delivery create_delivery
  create-next_delivery = ground arith

  create-deliver_queue :
      (k : ℕ)
      → count_where (is_key k) (create_and_enqueue c i t p e n db).deliver_queue
        ≤ count_where (is_key k) db.deliver_queue + (if db.next_delivery == k then 1 else 0)
  unfolding create_and_enqueue enqueue_delivery create_delivery
  create-deliver_queue k =
      ground (arith, count_where-append (is_key k) db.deliver_queue (db.next_delivery ∷ []))

  pub create-InOneHand :
      (running : List WebhookDelivery)
      → InOneHand db running
      → InOneHand (create_and_enqueue c i t p e n db) running
  unfolding hands
  create-InOneHand running h =
      let (d, rows, id, status, _, _) = create-deliveries in
      record {
        live = λ k. rw rows (
            let counts = new_pending k db.next_delivery db.deliveries d id status in
            omega (arith, h.live k, create-deliver_queue k, counts.0, counts.1));
        unique = λ k. rw rows (
            let counts = new_pending k db.next_delivery db.deliveries d id status in
            elim (Bool-cases (db.next_delivery == k)) [
              | inl same ↦ ground (arith, h.fresh k, counts.2)
              | inr other ↦ ground (arith, h.unique k, counts.2)
            ]);
        fresh = λ k le. rw rows (
            let counts = new_pending k db.next_delivery db.deliveries d id status in
            let later : db.next_delivery + 1 ≤ k = rw create-next_delivery at le in
            ground (arith, h.fresh k, counts.2));
      }
