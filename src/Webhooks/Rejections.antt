-- ===== src/Webhooks/Rejections.antt =====
-- How many rejected POSTs leave a row (`incoming_webhook` of apps/webhooks/views.py).
use cwstation.Prelude.{
  subst, take, ltb→lt, leb→le, ◌⊎◌, ℕ, ◌+◌, ◌≤◌, ◌≡◌, refl, Bool, true, false, not, ◌&&◌, ◌||◌,
  Option, none, some, List, [], ◌∷◌, ◌++◌, Text, leb, ltb, ◌==◌, if◌then◌else◌, find_first,
  count_where, count_where-append, length, Bool-cases, inl, inr, arith,
}
use cwstation.Webhooks.Model.{
  WebhookReceiver, WebhookReceipt, WebDb, Outside, WebSettings, ReceiptStatus, ReceiptError,
  accepted, rejected, ignored, no_receipt_error, bad_signature, self_originated,
}
use cwstation.Webhooks.Headers.{Dict}
use cwstation.Webhooks.Hooks.{Hooks, Verifier, get_verifier, get_challenge}
use cwstation.Webhooks.Send.{Moment}
use cwstation.Webhooks.Inbound.{
  Incoming, serves, header_map, origin_of, is_own, is_verified, judge_post, reject, ignore_own,
  take_in, create_receipt, count_received, enqueue_dispatch, verify_by, receive_body,
  after_challenge, answer_by, receive_for, incoming_webhook, recent_rejection, or_zero, is_rejected,
  safe_headers,
}

-- The window moves on.
later_count :
    (k now t : ℕ) (xs : List WebhookReceipt)
    → now ≤ t
    → count_where (recent_rejection k t) xs ≤ count_where (recent_rejection k now) xs
later_count k now t [] h = omega arith
later_count k now t (x ∷ xs) h = ground (arith, later_count k now t xs h)

-- At most one row more, and none beyond the limit.
Bounded : ℕ → ℕ → ℕ → WebDb → WebDb → Type 0
Bounded limit k now db db' =
    count_where (recent_rejection k now) db.receipts ≤ limit
    → count_where (recent_rejection k now) db'.receipts ≤ limit

same-Bounded :
    (limit k now : ℕ) (db db' : WebDb) → db'.receipts ≡ db.receipts → Bounded limit k now db db'
unfolding Bounded
same-Bounded limit k now db db' e h = rw e h

is_recent_none :
    (k now : ℕ) (x : WebhookReceipt)
    → is_rejected x.status ≡ false
    → recent_rejection k now x ≡ false
is_recent_none k now x e = ground arith

added_count :
    (k now : ℕ) (xs : List WebhookReceipt) (x : WebhookReceipt)
    → count_where (recent_rejection k now) (xs ++ x ∷ [])
      ≤ count_where (recent_rejection k now) xs + (if x.receiver_id == k then 1 else 0)
added_count k now xs x = ground (arith, count_where-append (recent_rejection k now) xs (x ∷ []))

quiet_count :
    (k now : ℕ) (xs : List WebhookReceipt) (x : WebhookReceipt)
    → recent_rejection k now x ≡ false
    → count_where (recent_rejection k now) (xs ++ x ∷ []) ≡ count_where (recent_rejection k now) xs
quiet_count k now xs x e = ground (arith, count_where-append (recent_rejection k now) xs (x ∷ []))

-- A row that is no rejection changes no count.
create-count :
    (k : ℕ) (r : WebhookReceiver) (now : ℕ) (headers : Dict) (body : Text) (v : Bool)
    (origin : Text) (status : ReceiptStatus) (e : ReceiptError) (db : WebDb)
    → is_rejected status ≡ false
    → count_where
        (recent_rejection k now)
        (create_receipt r now headers body v origin status e db).receipts
      ≡ count_where (recent_rejection k now) db.receipts
unfolding create_receipt
create-count k r now headers body v origin status e db quiet =
    let x : WebhookReceipt = record {
      id = db.next_receipt;
      receiver_id = r.id;
      received_at = now;
      headers = headers;
      body = body;
      verified = v;
      origin = origin;
      status = status;
      error = e;
    } in
    quiet_count k now db.receipts x (is_recent_none k now x quiet)

-- A rejection is one row more of its receiver.
reject-count :
    (k : ℕ) (r : WebhookReceiver) (now : ℕ) (headers : Dict) (body : Text) (v : Bool)
    (origin : Text) (e : ReceiptError) (db : WebDb)
    → count_where
        (recent_rejection k now)
        (create_receipt r now headers body v origin rejected e db).receipts
      ≤ count_where (recent_rejection k now) db.receipts + (if r.id == k then 1 else 0)
unfolding create_receipt
reject-count k r now headers body v origin e db = added_count k now db.receipts _

one_at_most : (b : Bool) → (if b then 1 else 0) ≤ 1
one_at_most true = omega arith
one_at_most false = omega arith

zero_if : {b : Bool} → b ≡ false → ◌≡◌ {A = ℕ} (if b then 1 else 0) 0
zero_if e = rw e refl

-- The times of the POSTs, and the time at which the rows are counted.
abbrev pub in_order : ℕ → List (Moment × Incoming) → ℕ → Bool
in_order now [] t = leb now t
in_order now ((c, m) ∷ rest) t = leb now c.now && in_order c.now rest t

module _ ⦃o : Outside⦄ ⦃s : WebSettings⦄ where
  enqueue_dispatch-receipts :
      (c : Moment) (j : ℕ) (db : WebDb) → (enqueue_dispatch c j db).receipts ≡ db.receipts
  unfolding enqueue_dispatch
  enqueue_dispatch-receipts c j db = ground arith

  rejected_row : Moment → WebhookReceiver → Incoming → Text → WebDb → WebDb
  rejected_row c r m origin db =
      create_receipt r c.now (safe_headers m.headers) (o.decode (take 1024 m.body)) false
        (take 200 origin) rejected bad_signature db

  reject-room :
      (c : Moment) (r : WebhookReceiver) (m : Incoming) (origin : Text) (k : ℕ) (db : WebDb)
      → count_where (recent_rejection k c.now) db.receipts ≤ s.rejected_per_minute
      → ltb (count_where (recent_rejection r.id c.now) db.receipts) s.rejected_per_minute ≡ true
      → (r.id == k ≡ true) ⊎ (r.id == k ≡ false)
      → count_where (recent_rejection k c.now) (rejected_row c r m origin db).receipts
        ≤ s.rejected_per_minute
  unfolding rejected_row
  reject-room c r m origin k db h room (inl same) =
      let id : r.id ≡ k = ground arith in
      let less : ltb (count_where (recent_rejection k c.now) db.receipts) s.rejected_per_minute
          ≡ true =
        subst
          (λ i.
            ltb (count_where (recent_rejection i c.now) db.receipts) s.rejected_per_minute ≡ true)
          id room in
      omega (
        arith,
        ltb→lt _ _ less,
        reject-count k r c.now (safe_headers m.headers) (o.decode (take 1024 m.body)) false
            (take 200 origin) bad_signature db,
        one_at_most (r.id == k),
      )
  reject-room c r m origin k db h room (inr other) = omega (
    arith,
    h,
    zero_if other,
    reject-count k r c.now (safe_headers m.headers) (o.decode (take 1024 m.body)) false
        (take 200 origin) bad_signature db,
  )

  reject-Bounded :
      (c : Moment) (r : WebhookReceiver) (m : Incoming) (origin : Text) (k : ℕ) (db : WebDb)
      → Bounded s.rejected_per_minute k c.now db (reject c r m origin db)
  unfolding reject Bounded rejected_row
  reject-Bounded c r m origin k db h =
      elim (Bool-cases
        (ltb (count_where (recent_rejection r.id c.now) db.receipts) s.rejected_per_minute)) [
          | inl room ↦ rw room (reject-room c r m origin k db h room (Bool-cases (r.id == k)))
          | inr full ↦ rw full h
        ]

  judge_post-Bounded :
      (c : Moment) (r : WebhookReceiver) (m : Incoming) (v : Bool) (origin : Text) (k : ℕ)
      (db : WebDb)
      → Bounded s.rejected_per_minute k c.now db (judge_post c r m v origin db).1
  unfolding judge_post ignore_own take_in count_received Bounded
  judge_post-Bounded c r m v origin k db h = elim (Bool-cases (r.require_signature && not v)) [
    | inl bad ↦ rw bad (reject-Bounded c r m origin k db h)
    | inr fine ↦ elim (Bool-cases (is_own r origin)) [
      | inl own ↦
          rw (fine, own)
            (rw
              (create-count k r c.now (safe_headers m.headers) (take 100000 (o.decode m.body)) v
                origin ignored self_originated db refl)
              h)
      | inr other ↦
          rw (fine, other)
            (rw
              (
                enqueue_dispatch-receipts c db.next_receipt _,
                create-count k r c.now (safe_headers m.headers) (take 100000 (o.decode m.body)) v
                    origin accepted no_receipt_error db refl,
              )
              h)
    ]
  ]

  verify_by-Bounded :
      (c : Moment) (r : WebhookReceiver) (m : Incoming) (v : Option Verifier) (k : ℕ) (db : WebDb)
      → Bounded s.rejected_per_minute k c.now db (verify_by c r m v db).1
  unfolding Bounded
  verify_by-Bounded c r m none k db h = h
  verify_by-Bounded c r m (some v) k db h =
      judge_post-Bounded c r m (is_verified (v m.body (header_map m) r)) (origin_of m) k db h

  module _ ⦃hooks : Hooks⦄ where
    receive_body-Bounded :
        (c : Moment) (r : WebhookReceiver) (m : Incoming) (k : ℕ) (db : WebDb)
        → Bounded s.rejected_per_minute k c.now db (receive_body c r m db).1
    unfolding receive_body Bounded
    receive_body-Bounded c r m k db h =
        elim (Bool-cases (
          ltb s.inbound_max_bytes (or_zero m.declared)
          || ltb s.inbound_max_bytes (length m.body))) [
            | inl large ↦ rw large h
            | inr fits ↦ rw fits (verify_by-Bounded c r m (get_verifier r.verifier) k db h)
          ]

    receive_for-Bounded :
        (c : Moment) (r : Option WebhookReceiver) (m : Incoming) (k : ℕ) (db : WebDb)
        → Bounded s.rejected_per_minute k c.now db (receive_for c r m db).1
    unfolding Bounded
    receive_for-Bounded c none m k db h = h
    receive_for-Bounded c (some r) m k db h = go (answer_by r m (get_challenge r.challenge))
      where
        go :
            (a : Option ℕ)
            → count_where (recent_rejection k c.now) (after_challenge c r m a db).1.receipts
              ≤ s.rejected_per_minute
        go none = receive_body-Bounded c r m k db h
        go (some code) = h

    incoming_webhook-Bounded :
        (c : Moment) (m : Incoming) (k : ℕ) (db : WebDb)
        → Bounded s.rejected_per_minute k c.now db (incoming_webhook c m db).1
    unfolding incoming_webhook Bounded
    incoming_webhook-Bounded c m k db h =
        elim (Bool-cases (not s.webhooks_enabled || not s.inbound)) [
          | inl off ↦ rw off h
          | inr on ↦
              rw on (receive_for-Bounded c (find_first (serves m.slug) db.receivers) m k db h)
        ]

    -- The POSTs that come, each at its time.
    unfoldable pub receive_all : List (Moment × Incoming) → WebDb → WebDb
    receive_all [] db = db
    receive_all ((c, m) ∷ rest) db = receive_all rest (incoming_webhook c m db).1

    receive_all-Bounded :
        (posts : List (Moment × Incoming)) (now t k : ℕ) (db : WebDb)
        → in_order now posts t ≡ true
        → count_where (recent_rejection k now) db.receipts ≤ s.rejected_per_minute
        → count_where (recent_rejection k t) (receive_all posts db).receipts ≤ s.rejected_per_minute
    unfolding receive_all Bounded
    receive_all-Bounded [] now t k db order h =
        omega (arith, h, later_count k now t db.receipts (leb→le now t order))
    receive_all-Bounded ((c, m) ∷ rest) now t k db order h =
        let before : now ≤ c.now = ground arith in
        receive_all-Bounded rest c.now t k (incoming_webhook c m db).1 (ground arith) (
          incoming_webhook-Bounded c m k db
            (omega (arith, h, later_count k now c.now db.receipts before)))

    -- However many POSTs come, no receiver has more rejections on record from any last minute than the
    -- setting allows, if there are no receipts at the start and times do not go back.
    pub receive_all_bound :
        (posts : List (Moment × Incoming)) (t k : ℕ) (db : WebDb)
        → db.receipts ≡ []
        → in_order 0 posts t ≡ true
        → count_where (recent_rejection k t) (receive_all posts db).receipts ≤ s.rejected_per_minute
    receive_all_bound posts t k db none_yet order =
        receive_all-Bounded posts 0 t k db order (rw none_yet (omega arith))
