-- ===== src/Webhooks/Quieted.antt =====
-- A handler's writes make no deliveries unless it cascades, and what becomes of its receipt
-- (`dispatch_incoming` of apps/webhooks/tasks.py, with context.py and signals.py).
use cwstation.Prelude.{
  ℕ, ◌+◌, ◌≡◌, refl, sym, subst, ap, ◌∙◌, Bool, true, false, some, List, [], ◌∷◌, ltb, ◌==◌,
  if◌then◌else◌, find_first, update_where, find_first-update_where, find_first_sound, map_some,
  arith,
}
use cwstation.Webhooks.Model.{
  WebhookReceiver, WebhookReceipt, WebDb, Outside, WebSettings, processed, failed, handler_raised,
}
use cwstation.Webhooks.Hooks.{Hooks, get_handler}
use cwstation.Webhooks.Send.{Moment}
use cwstation.Webhooks.Inbound.{
  receiver_key, receipt_key, Handling, Write, fire_write, fire_writes, handled, mark_receipt,
  mark_processed, handler_name, dispatch_incoming,
}

-- What a receipt looks like behind its handler.
abbrev pub outcome : Bool → WebhookReceipt → WebhookReceipt
outcome true x = record x { status = failed; error = handler_raised }
outcome false x = record x { status = processed }

hit :
    (k : ℕ) (f : WebhookReceipt → WebhookReceipt) (x : WebhookReceipt) (xs : List WebhookReceipt)
    → ((y : WebhookReceipt) → (f y).id ≡ y.id)
    → x.id ≡ k
    → find_first (receipt_key k) xs ≡ some x
    → find_first (receipt_key k) (update_where (receipt_key k) f xs) ≡ some (f x)
hit k f x xs same id e =
    find_first-update_where (receipt_key k) (receipt_key k) f (λ y. ap (λ i. i == k) (same y)) xs
    ∙ ap (map_some (λ y. if receipt_key k y then f y else y)) e
    ∙ here
  where
    here : map_some (λ y. if receipt_key k y then f y else y) (some x) ≡ some (f x)
    here = ground arith

module _ ⦃o : Outside⦄ ⦃s : WebSettings⦄ where
  fire_writes_suppressed :
      (c : Moment) (depth : ℕ) (ws : List Write) (db : WebDb) → fire_writes c (depth + 1) ws db ≡ db
  unfolding fire_writes fire_write
  fire_writes_suppressed c depth [] db = refl
  fire_writes_suppressed c depth (w ∷ ws) db =
      let on : ltb 0 (depth + 1) ≡ true = ground arith in
      rw on (fire_writes_suppressed c depth ws db)

  handled-outcome :
      (k : ℕ) (raises : Bool) (x : WebhookReceipt) (db : WebDb)
      → find_first (receipt_key k) db.receipts ≡ some x
      → (find_first (receipt_key k) (handled x.id raises db).receipts ≡ some (outcome raises x))
        × ((handled x.id raises db).deliveries ≡ db.deliveries)
        × ((handled x.id raises db).deliver_queue ≡ db.deliver_queue)
  unfolding mark_receipt mark_processed
  handled-outcome k true x db e =
      let id : x.id ≡ k = ground (arith, find_first_sound (receipt_key k) db.receipts e) in
      subst
        (λ i.
          (find_first (receipt_key k) (handled i true db).receipts ≡ some (outcome true x))
          × ((handled i true db).deliveries ≡ db.deliveries)
          × ((handled i true db).deliver_queue ≡ db.deliver_queue))
        (sym id) (hit k _ x db.receipts (λ y. refl) id e, refl, refl)
  handled-outcome k false x db e =
      let id : x.id ≡ k = ground (arith, find_first_sound (receipt_key k) db.receipts e) in
      subst
        (λ i.
          (find_first (receipt_key k) (handled i false db).receipts ≡ some (outcome false x))
          × ((handled i false db).deliveries ≡ db.deliveries)
          × ((handled i false db).deliver_queue ≡ db.deliver_queue))
        (sym id) (hit k _ x db.receipts (λ y. refl) id e, refl, refl)

  -- A handler that was not registered with cascade=True makes no delivery and queues none, whatever
  -- it writes and even if it raises, and its receipt ends as processed, or as failed if it raises.
  pub dispatch_incoming_suppressed :
      ⦃h : Hooks⦄ (c : Moment) (depth : ℕ) (f : Handling) (k : ℕ) (db : WebDb) (x : WebhookReceipt)
      (r : WebhookReceiver)
      → find_first (receipt_key k) db.receipts ≡ some x
      → find_first (receiver_key x.receiver_id) db.receivers ≡ some r
      → get_handler (handler_name r) ≡ some false
      → let after = dispatch_incoming c depth f k db in
        (find_first (receipt_key k) after.receipts ≡ some (outcome (f x).1 x))
        × (after.deliveries ≡ db.deliveries)
        × (after.deliver_queue ≡ db.deliver_queue)
  unfolding dispatch_incoming
  dispatch_incoming_suppressed c depth f k db x r e g name =
      rw (e, g, name, fire_writes_suppressed c depth (f x).0 db) (handled-outcome k (f x).1 x db e)
