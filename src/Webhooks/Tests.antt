-- ===== src/Webhooks/Tests.antt =====
-- The theorems about the deliveries of webhooks at concrete inputs.
use cwstation.Prelude.{
  ◌+◌, ◌≤◌, ◌≡◌, refl, true, ◌&&◌, none, some, List, [], ◌∷◌, ◌++◌, map, ◌==◌, find_first,
  filter_where, count_where, all_where, length,
}
use cwstation.Webhooks.Model.{
  retrying, success, dead, WebhookDelivery, is_retrying, WebDb, delivery_key,
}
use cwstation.Webhooks.Guard.{matches_event}
use cwstation.Webhooks.Backoff.{backoff_seconds, clamp_backoff}
use cwstation.Webhooks.Deliver.{
  load_delivery, record_attempt, save_outcome, finish_attempt, fate_of, bump_endpoint,
  update_endpoint, auto_disable, announce, notify_dead,
}
use cwstation.Webhooks.Services.{
  fan_out_to, create_and_enqueue, enqueue_delivery, create_delivery, claim_at, fan_out, subscribes,
}
use cwstation.Webhooks.Sound.{sound}
use cwstation.Webhooks.Steps.{take_step, History, Step, fires, starts, finishes, claims, take_steps}
use cwstation.Webhooks.Single.{take_steps_one_hand, take_steps-sound}
use cwstation.Webhooks.Terminal.{take_steps_terminal}
use cwstation.Webhooks.FanOut.{outgoing, delivery_for, fan_out-subscribes}
use cwstation.Webhooks.Samples.{
  plain_outside, some_settings, moment, fresh_db, an_event, no_answer, good_answer, a_delivery,
}

-- An event, whose first delivery fails once, is claimed by a tick, with a copy, and then succeeds.
abbrev some_steps : List Step
some_steps =
    fires (moment 0) an_event
    ∷ starts 7
    ∷ finishes 7 (moment 1) no_answer
    ∷ claims (moment 100) (a_delivery 7 retrying 1 (some 61))
    ∷ starts 7
    ∷ finishes 7 (moment 101) good_answer
    ∷ []

abbrev behind : History
behind =
    take_steps ⦃o = plain_outside⦄ ⦃s = some_settings⦄ (record { db = fresh_db; running = [] })
      some_steps

take_steps_one_hand_example :
    count_where (λ j. j == 7) behind.db.deliver_queue
      + count_where (delivery_key 7) behind.running
      + count_where (λ d. d.id == 7 && is_retrying d.status) behind.db.deliveries
    ≤ 1
take_steps_one_hand_example =
    take_steps_one_hand ⦃o = plain_outside⦄ ⦃s = some_settings⦄ fresh_db some_steps 7 (refl, refl)

take_steps-sound_example : all_where sound behind.db.deliveries ≡ true
take_steps-sound_example =
    take_steps-sound ⦃o = plain_outside⦄ ⦃s = some_settings⦄ fresh_db some_steps (refl, refl)

abbrev done_row : WebhookDelivery
done_row = record (a_delivery 7 success 2 none) { response_status = some 200; response_ms = some 5 }

done_run : find_first (delivery_key 7) behind.db.deliveries ≡ some done_row
unfolding take_steps take_step fan_out fan_out_to matches_event create_and_enqueue enqueue_delivery
    create_delivery load_delivery record_attempt save_outcome finish_attempt fate_of bump_endpoint
    update_endpoint auto_disable announce notify_dead backoff_seconds clamp_backoff claim_at
done_run = refl

-- Another worker has a task for the same delivery, and a tick has an old copy.
take_steps_terminal_example :
    find_first
      (delivery_key 7)
      (take_steps ⦃o = plain_outside⦄ ⦃s = some_settings⦄ behind (
        starts 7
        ∷ finishes 7 (moment 200) no_answer
        ∷ claims (moment 300) (a_delivery 7 retrying 1 (some 61))
        ∷ [])).db.deliveries
    ≡ some done_row
take_steps_terminal_example =
    take_steps_terminal ⦃o = plain_outside⦄ ⦃s = some_settings⦄ fresh_db some_steps
      (starts 7
        ∷ finishes 7 (moment 200) no_answer
        ∷ claims (moment 300) (a_delivery 7 retrying 1 (some 61))
        ∷ [])
      7 done_row (refl, refl) done_run refl

fan_out-subscribes_example :
    (news : List WebhookDelivery) × ((fan_out ⦃o = plain_outside⦄ ⦃s = some_settings⦄
        (moment 0)
        an_event
        fresh_db).1.deliveries
      ≡ [] ++ news)
    × (map outgoing news
        ≡ map (delivery_for ⦃o = plain_outside⦄ ⦃s = some_settings⦄ an_event) (
            filter_where
              (subscribes ⦃o = plain_outside⦄ ⦃s = some_settings⦄ an_event)
              fresh_db.endpoints))
    × ((fan_out ⦃o = plain_outside⦄ ⦃s = some_settings⦄ (moment 0) an_event fresh_db).0
        ≡ length news)
fan_out-subscribes_example =
    fan_out-subscribes ⦃o = plain_outside⦄ ⦃s = some_settings⦄ (moment 0) an_event fresh_db refl
      refl

-- Of two dead deliveries and a live one, the first dead one is sent again.
abbrev outage_db : WebDb
outage_db = record fresh_db {
  deliveries =
      a_delivery 4 dead 2 none ∷ a_delivery 5 success 1 none ∷ a_delivery 6 dead 2 none ∷ [];
}
