-- ===== src/Webhooks/Admission.antt =====
-- Which POSTs get in, and what a handler's writes set off (apps/webhooks/views.py and tasks.py).
use cwstation.Prelude.{
  ℕ, ◌≡◌, ◌⊎◌, refl, Bool, true, false, not, ◌&&◌, ◌||◌, Option, none, some, Text, ltb, length,
  find_first, Bool-cases, inl, inr, arith,
}
use cwstation.Webhooks.Model.{WebhookReceiver, WebDb, Outside, WebSettings}
use cwstation.Webhooks.Hooks.{Hooks, Verifier, get_verifier, get_challenge}
use cwstation.Webhooks.Send.{Moment}
use cwstation.Webhooks.Inbound.{
  or_zero, Incoming, serves, header_map, origin_of, is_own, is_verified, judge_post, reject,
  ignore_own, create_receipt, count_received, verify_by, receive_body, after_challenge, answer_by,
  receive_for, incoming_webhook,
}

module _ ⦃o : Outside⦄ ⦃s : WebSettings⦄ where
  reject-dispatch_queue :
      (c : Moment) (r : WebhookReceiver) (m : Incoming) (origin : Text) (db : WebDb)
      → (reject c r m origin db).dispatch_queue ≡ db.dispatch_queue
  unfolding reject create_receipt
  reject-dispatch_queue c r m origin db = ground arith

  -- Why a handler may run for a POST.
  unfoldable pub Admitted : ⦃h : Hooks⦄ → Incoming → WebDb → Type 0
  Admitted m db =
      (r : WebhookReceiver) × (find_first (serves m.slug) db.receivers ≡ some r)
      × ((r.require_signature ≡ false)
          ⊎ ((v : Verifier) × (get_verifier r.verifier ≡ some v)
              × (v m.body (header_map m) r ≡ some true)))
      × (is_own r (origin_of m) ≡ false)

  verified_true : (v : Option Bool) → is_verified v ≡ true → v ≡ some true
  verified_true none e = cc
  verified_true (some true) e = refl
  verified_true (some false) e = cc

  judge_post-dispatch_queue :
      (c : Moment) (r : WebhookReceiver) (m : Incoming) (verified : Bool) (origin : Text)
      (db : WebDb)
      → ((judge_post c r m verified origin db).1.dispatch_queue ≡ db.dispatch_queue)
        ⊎ (((r.require_signature ≡ false) ⊎ (verified ≡ true)) × (is_own r origin ≡ false))
  unfolding judge_post ignore_own count_received create_receipt
  judge_post-dispatch_queue c r m verified origin db =
      elim (Bool-cases (r.require_signature && not verified)) [
        | inl bad ↦ inl (rw bad (reject-dispatch_queue c r m origin db))
        | inr fine ↦ elim (Bool-cases (is_own r origin)) [
          | inl own ↦ inl (rw (fine, own) refl)
          | inr other ↦ inr (either r.require_signature verified fine, other)
        ]
      ]
    where
      either : (a b : Bool) → (a && not b) ≡ false → (a ≡ false) ⊎ (b ≡ true)
      either false b e = inl refl
      either true true e = inr refl
      either true false e = cc

  module _ ⦃h : Hooks⦄ where
    receive_body-dispatch_queue :
        (c : Moment) (r : WebhookReceiver) (m : Incoming) (db : WebDb)
        → find_first (serves m.slug) db.receivers ≡ some r
        → ((receive_body c r m db).1.dispatch_queue ≡ db.dispatch_queue) ⊎ Admitted m db
    unfolding receive_body Admitted
    receive_body-dispatch_queue c r m db found =
        elim (Bool-cases (
          ltb s.inbound_max_bytes (or_zero m.declared)
          || ltb s.inbound_max_bytes (length m.body))) [
            | inl large ↦ inl (rw large refl)
            | inr fits ↦ rw fits (by_verifier (get_verifier r.verifier) refl)
          ]
      where
        by_verifier :
            (v : Option Verifier)
            → get_verifier r.verifier ≡ v
            → ((verify_by c r m v db).1.dispatch_queue ≡ db.dispatch_queue) ⊎ Admitted m db
        by_verifier none e = inl refl
        by_verifier (some v) e =
            elim (judge_post-dispatch_queue c r m (is_verified (v m.body (header_map m) r))
              (origin_of m) db) [
                | inl same ↦ inl same
                | inr (inl free, other) ↦ inr (r, found, inl free, other)
                | inr (inr good, other) ↦
                    inr
                      (r, found, inr (v, e, verified_true (v m.body (header_map m) r) good), other)
              ]

    -- A POST puts a task for a handler into the queue only if an enabled receiver has its slug, the
    -- receiver's verifier has answered true for the body and headers (one that raises has not) or the
    -- receiver wants no signature, and it does not come from the origin that the receiver ignores.
    pub incoming_webhook-Admitted :
        (c : Moment) (m : Incoming) (db : WebDb)
        → ((incoming_webhook c m db).1.dispatch_queue ≡ db.dispatch_queue) ⊎ Admitted m db
    unfolding incoming_webhook
    incoming_webhook-Admitted c m db = elim (Bool-cases (not s.webhooks_enabled || not s.inbound)) [
      | inl off ↦ inl (rw off refl)
      | inr on ↦ rw on (by_receiver (find_first (serves m.slug) db.receivers) refl)
    ]
      where
        by_answer :
            (r : WebhookReceiver) (a : Option ℕ)
            → find_first (serves m.slug) db.receivers ≡ some r
            → ((after_challenge c r m a db).1.dispatch_queue ≡ db.dispatch_queue) ⊎ Admitted m db
        by_answer r none e = receive_body-dispatch_queue c r m db e
        by_answer r (some code) e = inl refl

        by_receiver :
            (r : Option WebhookReceiver)
            → find_first (serves m.slug) db.receivers ≡ r
            → ((receive_for c r m db).1.dispatch_queue ≡ db.dispatch_queue) ⊎ Admitted m db
        by_receiver none e = inl refl
        by_receiver (some r) e = by_answer r (answer_by r m (get_challenge r.challenge)) e
