-- ===== src/Webhooks/InboundTests.antt =====
-- The theorems about the receivers of webhooks at concrete inputs.
use cwstation.Prelude.{
  ◌≤◌, ◌≡◌, ◌⊎◌, refl, true, false, some, List, [], ◌∷◌, Text, codes, find_first, count_where,
}
use cwstation.Webhooks.Model.{WebhookReceipt, accepted, no_receipt_error, WebDb}
use cwstation.Webhooks.Hooks.{register_all, register, get_handler}
use cwstation.Webhooks.Send.{Moment}
use cwstation.Webhooks.Inbound.{
  Incoming, incoming_webhook, recent_rejection, receipt_key, Handling, dispatch_incoming,
}
use cwstation.Webhooks.Admission.{Admitted, incoming_webhook-Admitted}
use cwstation.Webhooks.Quieted.{outcome, dispatch_incoming_suppressed}
use cwstation.Webhooks.Rejections.{receive_all, receive_all_bound}
use cwstation.Webhooks.Samples.{
  plain_outside, some_settings, no_hooks, moment, a_receiver, fresh_db, an_event,
}

abbrev a_post : Text → Incoming
a_post signature = record {
  slug = codes "github";
  declared = some 2;
  headers = (codes "x-smallstack-signature", signature) ∷ [];
  body = codes "{}";
}

incoming_webhook-Admitted_example :
    ((incoming_webhook ⦃o = plain_outside⦄ ⦃s = some_settings⦄ ⦃h = no_hooks⦄
        (moment 0)
        (a_post (codes "sha256=ab"))
        fresh_db).1.dispatch_queue
      ≡ [])
    ⊎ Admitted ⦃o = plain_outside⦄ ⦃s = some_settings⦄ ⦃h = no_hooks⦄
        (a_post (codes "sha256=ab"))
        fresh_db
incoming_webhook-Admitted_example =
    incoming_webhook-Admitted ⦃o = plain_outside⦄ ⦃s = some_settings⦄ ⦃h = no_hooks⦄ (moment 0)
      (a_post (codes "sha256=ab")) fresh_db

abbrev a_receipt : WebhookReceipt
a_receipt = record {
  id = 8;
  receiver_id = 4;
  received_at = 0;
  headers = [];
  body = codes "{}";
  verified = true;
  origin = [];
  status = accepted;
  error = no_receipt_error;
}

abbrev received_db : WebDb
received_db = record fresh_db { receipts = a_receipt ∷ [] }

-- A handler that writes a record, whose model asks for webhooks, and raises.
abbrev writes_back : Handling
writes_back x = (record { wanted = true; event = an_event } ∷ [], true)

github_run : get_handler ⦃h = no_hooks⦄ (codes "github") ≡ some false
unfolding get_handler register_all register
github_run = refl

dispatch_incoming_suppressed_example :
    let after =
      dispatch_incoming ⦃o = plain_outside⦄ ⦃s = some_settings⦄ ⦃h = no_hooks⦄
        (moment 1)
        0
        writes_back
        8
        received_db in
    (find_first (receipt_key 8) after.receipts ≡ some (outcome true a_receipt))
    × (after.deliveries ≡ [])
    × (after.deliver_queue ≡ [])
dispatch_incoming_suppressed_example =
    dispatch_incoming_suppressed ⦃o = plain_outside⦄ ⦃s = some_settings⦄ ⦃h = no_hooks⦄ (moment 1) 0
      writes_back 8 received_db a_receipt a_receiver refl refl github_run

-- Three forged POSTs within a minute.
abbrev forged : List (Moment × Incoming)
forged =
    (moment 10, a_post (codes "no"))
    ∷ (moment 20, a_post (codes "no"))
    ∷ (moment 30, a_post [])
    ∷ []

receive_all_bound_example :
    count_where
      (recent_rejection 4 30)
      (receive_all ⦃o = plain_outside⦄ ⦃s = some_settings⦄ ⦃hooks = no_hooks⦄ forged
        fresh_db).receipts
    ≤ 1
receive_all_bound_example =
    receive_all_bound ⦃o = plain_outside⦄ ⦃s = some_settings⦄ ⦃hooks = no_hooks⦄ forged 30 4
      fresh_db refl refl
