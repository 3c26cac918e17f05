-- ===== src/Webhooks/Steps.antt =====
-- The steps that ticks, workers, signals and operators take, one after the other in any order: what
-- the tables are between two of them, and the copies that tasks under way have loaded
-- (apps/webhooks/services.py and tasks.py).
use cwstation.Prelude.{
  ℕ, ◌≡◌, Bool, Option, none, some, List, [], ◌∷◌, Text, ◌==◌, if◌then◌else◌, find_first, any_where,
}
use cwstation.Webhooks.Model.{
  WebhookEndpoint, WebhookDelivery, WebDb, delivery_key, Outside, WebSettings,
}
use cwstation.Webhooks.Send.{Moment, Attempt}
use cwstation.Webhooks.Deliver.{load_delivery, record_attempt}
use cwstation.Webhooks.Services.{SiteEvent, fan_out, claim_delivery, replay_delivery, send_probe}

pub record History : Type 0 where
  pub db : WebDb
  pub running : List WebhookDelivery

pub data Step : Type 0 where
  -- a signal, a replay and a probe
  fires : Moment → SiteEvent → Step
  replays : Moment → WebhookDelivery → Step
  probes : Moment → Text → ℕ → WebhookEndpoint → Step
  -- a tick's conditional update, with the copy that it has loaded
  claims : Moment → WebhookDelivery → Step
  -- a worker takes a task for the key out of the queue; the task ends, or raises
  starts : ℕ → Step
  finishes : ℕ → Moment → Attempt → Step
  breaks : ℕ → Step

module _ {ℓ} {A : Type ℓ} where
  -- The list without its first match.
  abbrev pub take_one : (A → Bool) → List A → List A
  take_one p [] = []
  take_one p (x ∷ xs) = let rest = take_one p xs in if p x then xs else x ∷ rest

abbrev pub with_copy : Option WebhookDelivery → List WebhookDelivery → List WebhookDelivery
with_copy none running = running
with_copy (some d) running = d ∷ running

module _ ⦃o : Outside⦄ ⦃s : WebSettings⦄ where
  abbrev pub finish_first : ℕ → Moment → Attempt → Option WebhookDelivery → History → History
  finish_first k c a none h = h
  finish_first k c a (some d) h = record {
    db = record_attempt c d a h.db;
    running = take_one (delivery_key k) h.running;
  }

  unfoldable pub take_step : History → Step → History
  take_step h (fires c e) = record h { db = (fan_out c e h.db).1 }
  take_step h (replays c d) = record h { db = (replay_delivery c d h.db).1 }
  take_step h (probes c event_type payload ep) = record h {
    db = (send_probe c event_type payload ep h.db).1;
  }
  take_step h (claims c d) = record h { db = (claim_delivery c d d.next_attempt_at h.db).1 }
  take_step h (starts k) =
      if any_where (λ j. j == k) h.db.deliver_queue
      then record {
        db = record h.db { deliver_queue = take_one (λ j. j == k) h.db.deliver_queue };
        running = with_copy (load_delivery k h.db) h.running;
      }
      else h
  take_step h (finishes k c a) = finish_first k c a (find_first (delivery_key k) h.running) h
  take_step h (breaks k) = record h { running = take_one (delivery_key k) h.running }

  unfoldable pub take_steps : History → List Step → History
  take_steps h [] = h
  take_steps h (x ∷ rest) = take_steps (take_step h x) rest

-- No delivery has been made yet.
abbrev pub IsNew : WebDb → Type 0
IsNew db = (db.deliveries ≡ []) × (db.deliver_queue ≡ [])
