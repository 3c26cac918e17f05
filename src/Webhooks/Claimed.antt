-- ===== src/Webhooks/Claimed.antt =====
-- A claim by a tick keeps each delivery in one hand (`_claim` of apps/webhooks/services.py).
use cwstation.Prelude.{
  all_where, ℕ, ◌+◌, ◌≤◌, ◌≡◌, refl, Bool, true, List, [], ◌∷◌, ◌==◌, if◌then◌else◌, any_where,
  count_where, count_where-append, update_where, Bool-cases, inl, inr, arith,
}
use cwstation.Webhooks.Model.{WebhookDelivery, WebDb, delivery_key, retrying}
use cwstation.Webhooks.Send.{Moment}
use cwstation.Webhooks.Services.{enqueue_delivery, claim_at, still_at, claimed, has_cursor}
use cwstation.Webhooks.Sound.{sound}
use cwstation.Webhooks.Counts.{is_key, retries_of, live_of, hands, InOneHand}

-- A row with a cursor waits for a retry.
pub cursor_retries :
    (d : WebhookDelivery) (t : ℕ)
    → sound d ≡ true
    → has_cursor d.next_attempt_at t ≡ true
    → d.status ≡ retrying
unfolding sound
cursor_retries d t h e = ground arith

-- A claimed row was in the tick's hands and is in the queue's.
claimed_counts :
    (k0 seen k : ℕ) (ds : List WebhookDelivery)
    → all_where sound ds ≡ true
    → (count_where (retries_of k) (update_where (still_at k0 seen) claimed ds)
          + (if k0 == k then count_where (still_at k0 seen) ds else 0)
        ≡ count_where (retries_of k) ds)
      × (count_where (live_of k) (update_where (still_at k0 seen) claimed ds)
          ≡ count_where (live_of k) ds)
      × (count_where (delivery_key k) (update_where (still_at k0 seen) claimed ds)
          ≡ count_where (delivery_key k) ds)
claimed_counts k0 seen k [] h = (ground arith, refl, refl)
claimed_counts k0 seen k (d ∷ ds) h =
    let rest = claimed_counts k0 seen k ds (ground arith) in
    elim (Bool-cases (still_at k0 seen d)) [
      | inl e ↦
          let status : d.status ≡ retrying = cursor_retries d seen (ground arith) (ground arith) in
          ground (arith, rest, status, e)
      | inr n ↦ ground (arith, rest, n)
    ]

pub any-count {ℓ} :
    {A : Type ℓ} (p : A → Bool) (xs : List A) → any_where p xs ≡ true → 1 ≤ count_where p xs
any-count p [] h = cc
any-count p (x ∷ xs) h = ground (arith, any-count p xs)

pub claim_at-InOneHand :
    (c : Moment) (k0 seen : ℕ) (db : WebDb) (running : List WebhookDelivery)
    → all_where sound db.deliveries ≡ true
    → InOneHand db running
    → InOneHand (claim_at c k0 seen db).1 running
unfolding claim_at enqueue_delivery hands
claim_at-InOneHand c k0 seen db running ok h =
    elim (Bool-cases (any_where (still_at k0 seen) db.deliveries)) [
      | inl e ↦ rw e (won (any-count (still_at k0 seen) db.deliveries e))
      | inr n ↦ rw n h
    ]
  where
    won :
        1 ≤ count_where (still_at k0 seen) db.deliveries
        → InOneHand
            (enqueue_delivery c k0
              (record db { deliveries = update_where (still_at k0 seen) claimed db.deliveries }))
            running
    won one = elim (Bool-cases (c.broker k0)) [
      | inl b ↦ rw b (record {
        live = λ k.
            let counts = claimed_counts k0 seen k db.deliveries ok in
            ground
              (arith, h.live k, counts, count_where-append (is_key k) db.deliver_queue (k0 ∷ []));
        unique = λ k. omega (arith, h.unique k, (claimed_counts k0 seen k db.deliveries ok).2);
        fresh = λ k le. omega (arith, h.fresh k le, (claimed_counts k0 seen k db.deliveries ok).2);
      })
      | inr b ↦ rw b (record {
        live = λ k.
            let counts = claimed_counts k0 seen k db.deliveries ok in
            omega (arith, h.live k, counts);
        unique = λ k. omega (arith, h.unique k, (claimed_counts k0 seen k db.deliveries ok).2);
        fresh = λ k le. omega (arith, h.fresh k le, (claimed_counts k0 seen k db.deliveries ok).2);
      })
    ]
