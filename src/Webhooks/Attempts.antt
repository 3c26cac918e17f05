-- ===== src/Webhooks/Attempts.antt =====
-- Every row of WebhookDelivery stays sound, and so does every copy that a task under way has loaded
-- (apps/webhooks/services.py and tasks.py).
use cwstation.Prelude.{
  ℕ, ◌+◌, ◌≡◌, refl, Bool, true, false, not, ◌&&◌, ◌||◌, Option, none, List, [], ◌∷◌, ◌++◌, Text,
  ◌==◌, leb, ltb, any_where, all_where, all_where-append, update_where, Bool-cases, inl, inr, arith,
}
use cwstation.Webhooks.Model.{
  WebhookDelivery, is_terminal, WebDb, Outside, WebSettings, pending, retrying,
}
use cwstation.Webhooks.Send.{Moment, Attempt, succeeded}
use cwstation.Webhooks.Deliver.{status_of, cursor_of, fate_of}
use cwstation.Webhooks.Services.{create_and_enqueue, claim_at, enqueue_delivery, still_at, claimed}
use cwstation.Webhooks.Sound.{sound, is_set, sound_as}
use cwstation.Webhooks.Steps.{take_one}
use cwstation.Webhooks.Counts.{create-deliveries, create-next_delivery}
use cwstation.Webhooks.Claimed.{cursor_retries}

abbrev pub agrees_with : WebhookDelivery → WebhookDelivery → Bool
agrees_with copy row = not (row.id == copy.id) || row.max_attempts == copy.max_attempts

-- A copy is sound and not terminal, and the row that it was loaded from allows as many attempts.
abbrev pub copy_fits : ℕ → List WebhookDelivery → WebhookDelivery → Bool
copy_fits next rows copy =
    (sound copy && not (is_terminal copy.status))
    && (ltb copy.id next && all_where (agrees_with copy) rows)

abbrev pub id_below : ℕ → WebhookDelivery → Bool
id_below next d = ltb d.id next

pub record Sensible (db : WebDb) (running : List WebhookDelivery) : Type 0 where
  pub rows : all_where sound db.deliveries ≡ true
  pub ids : all_where (id_below db.next_delivery) db.deliveries ≡ true
  pub copies : all_where (copy_fits db.next_delivery db.deliveries) running ≡ true

module _ {ℓ} {A : Type ℓ} where
  all_where-imp :
      (q r : A → Bool)
      → ((x : A) → q x ≡ true → r x ≡ true)
      → (xs : List A) → all_where q xs ≡ true
      → all_where r xs ≡ true
  all_where-imp q r f [] h = refl
  all_where-imp q r f (x ∷ xs) h = ground (arith, f x, all_where-imp q r f xs)

  pub all_where-and :
      (q r : A → Bool) (xs : List A)
      → all_where q xs ≡ true
      → all_where r xs ≡ true
      → all_where (λ x. q x && r x) xs ≡ true
  all_where-and q r [] h k = refl
  all_where-and q r (x ∷ xs) h k = ground (arith, all_where-and q r xs)

  -- An update that makes of every row one that passes.
  pub all_where-updated :
      (q r p : A → Bool) (f : A → A)
      → ((x : A) → q x ≡ true → p x ≡ true → r (f x) ≡ true)
      → ((x : A) → q x ≡ true → p x ≡ false → r x ≡ true)
      → (xs : List A) → all_where q xs ≡ true
      → all_where r (update_where p f xs) ≡ true
  all_where-updated q r p f hit miss [] h = refl
  all_where-updated q r p f hit miss (x ∷ xs) h = elim (Bool-cases (p x)) [
    | inl e ↦ ground (arith, e, hit x, all_where-updated q r p f hit miss xs)
    | inr e ↦ ground (arith, e, miss x, all_where-updated q r p f hit miss xs)
  ]

  pub all_where-take_one :
      (q p : A → Bool) (xs : List A) → all_where q xs ≡ true → all_where q (take_one p xs) ≡ true
  all_where-take_one q p [] h = refl
  all_where-take_one q p (x ∷ xs) h = ground (arith, all_where-take_one q p xs)

new_sound :
    (d : WebhookDelivery)
    → d.status ≡ pending
    → d.attempt ≡ 0
    → d.next_attempt_at ≡ none
    → sound d ≡ true
unfolding sound
new_sound d e f g = ground arith

-- The rows of a table with other status and cursor, but the same ids and bounds.
pub same_rows :
    (p : WebhookDelivery → Bool) (f : WebhookDelivery → WebhookDelivery)
    → ((d : WebhookDelivery) → (f d).id ≡ d.id)
    → ((d : WebhookDelivery) → (f d).max_attempts ≡ d.max_attempts)
    → (next : ℕ) (ds running : List WebhookDelivery) → all_where (copy_fits next ds) running ≡ true
    → all_where (copy_fits next (update_where p f ds)) running ≡ true
same_rows p f keeps_id keeps_bound next ds running h =
    all_where-imp (copy_fits next ds) (copy_fits next (update_where p f ds))
      (λ c fits.
        let rows : all_where (agrees_with c) (update_where p f ds) ≡ true =
          all_where-updated (agrees_with c) (agrees_with c) p f
            (λ d ok hit. rw (keeps_id d, keeps_bound d) ok) (λ d ok miss. ok) ds (ground arith) in
        ground (arith, rows))
      running h

pub same_ids :
    (p : WebhookDelivery → Bool) (f : WebhookDelivery → WebhookDelivery)
    → ((d : WebhookDelivery) → (f d).id ≡ d.id)
    → (next : ℕ) (ds : List WebhookDelivery) → all_where (id_below next) ds ≡ true
    → all_where (id_below next) (update_where p f ds) ≡ true
same_ids p f keeps_id next ds h =
    all_where-updated (id_below next) (id_below next) p f (λ d ok hit. rw (keeps_id d) ok)
      (λ d ok miss. ok) ds h

below_next :
    (next : ℕ) (d : WebhookDelivery) → id_below next d ≡ true → id_below (next + 1) d ≡ true
below_next next d h = ground arith

pub create-Sensible :
    (c : Moment) (i : ℕ) (t : Text) (p : ℕ) (e : Option Text) (n : ℕ) (db : WebDb)
    (running : List WebhookDelivery)
    → Sensible db running
    → Sensible (create_and_enqueue c i t p e n db) running
create-Sensible c i t p e n db running h =
    let (d, rows, id, status, attempt, cursor) = create-deliveries c i t p e n db in
    let next = create-next_delivery c i t p e n db in
    record {
      rows = rw rows (added sound d (new_sound d status attempt cursor) h.rows);
      ids =
          rw (rows, next)
            (added (id_below (db.next_delivery + 1)) d (ground (arith, id)) (
              all_where-imp (id_below db.next_delivery) (id_below (db.next_delivery + 1))
                (below_next db.next_delivery) db.deliveries h.ids));
      copies =
          rw (rows, next)
            (all_where-imp (copy_fits db.next_delivery db.deliveries)
              (copy_fits (db.next_delivery + 1) (db.deliveries ++ d ∷ []))
              (λ copy fits.
                let more : all_where (agrees_with copy) (db.deliveries ++ d ∷ []) ≡ true =
                  added (agrees_with copy) d (ground (arith, id)) (ground arith) in
                ground (arith, more))
              running h.copies);
    }
  where
    added :
        (q : WebhookDelivery → Bool) (d : WebhookDelivery)
        → q d ≡ true
        → all_where q db.deliveries ≡ true
        → all_where q (db.deliveries ++ d ∷ []) ≡ true
    added q d e h = ground (arith, all_where-append q db.deliveries (d ∷ []))

-- A claim finds rows with a cursor, which wait for a retry.
claimed-sound :
    (k0 seen : ℕ) (d : WebhookDelivery)
    → sound d ≡ true
    → still_at k0 seen d ≡ true
    → sound (claimed d) ≡ true
unfolding sound
claimed-sound k0 seen d h e =
    let status : d.status ≡ retrying = cursor_retries d seen h (ground arith) in
    ground (arith, status)

claim_rows-Sensible :
    (k0 seen : ℕ) (db db' : WebDb) (running : List WebhookDelivery)
    → db'.deliveries ≡ update_where (still_at k0 seen) claimed db.deliveries
    → db'.next_delivery ≡ db.next_delivery
    → Sensible db running
    → Sensible db' running
claim_rows-Sensible k0 seen db db' running e f h = record {
  rows = rw e (
      all_where-updated sound sound (still_at k0 seen) claimed (claimed-sound k0 seen)
        (λ d ok miss. ok) db.deliveries h.rows);
  ids =
      rw (e, f)
        (same_ids (still_at k0 seen) claimed (λ d. refl) db.next_delivery db.deliveries h.ids);
  copies =
      rw (e, f)
        (same_rows (still_at k0 seen) claimed (λ d. refl) (λ d. refl) db.next_delivery db.deliveries
          running h.copies);
}

pub enqueue-deliveries :
    (c : Moment) (k : ℕ) (db : WebDb)
    → ((enqueue_delivery c k db).deliveries ≡ db.deliveries)
      × ((enqueue_delivery c k db).next_delivery ≡ db.next_delivery)
unfolding enqueue_delivery
enqueue-deliveries c k db = ground arith

pub claim_at-Sensible :
    (c : Moment) (k0 seen : ℕ) (db : WebDb) (running : List WebhookDelivery)
    → Sensible db running
    → Sensible (claim_at c k0 seen db).1 running
unfolding claim_at
claim_at-Sensible c k0 seen db running h =
    elim (Bool-cases (any_where (still_at k0 seen) db.deliveries)) [
      | inl e ↦
          let claimed_db : WebDb = record db {
            deliveries = update_where (still_at k0 seen) claimed db.deliveries;
          } in
          let same = enqueue-deliveries c k0 claimed_db in
          rw e (
            claim_rows-Sensible k0 seen db (enqueue_delivery c k0 claimed_db) running same.0 same.1
              h)
      | inr n ↦ rw n h
    ]

module _ ⦃o : Outside⦄ ⦃s : WebSettings⦄ where
  pub fate_sound :
      (d : WebhookDelivery) (a : Attempt) (now : ℕ)
      → sound d ≡ true
      → is_terminal d.status ≡ false
      → sound_as
          (status_of (fate_of d (d.attempt + 1) a))
          (d.attempt + 1)
          d.max_attempts
          (is_set (cursor_of now (fate_of d (d.attempt + 1) a)))
        ≡ true
  unfolding fate_of sound
  fate_sound d a now h open_ = elim (Bool-cases (succeeded a.status_code)) [
    | inl e ↦ rw e (ground arith)
    | inr e ↦ elim (Bool-cases (leb d.max_attempts (d.attempt + 1))) [
      | inl f ↦ rw (e, f) (ground arith)
      | inr f ↦ rw (e, f) (ground arith)
    ]
  ]
