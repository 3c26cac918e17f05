-- ===== src/Webhooks/Sound.antt =====
-- What a row of WebhookDelivery may look like (apps/webhooks/models.py and tasks.py).
use cwstation.Prelude.{ℕ, Bool, true, false, not, ◌&&◌, ◌||◌, Option, none, some, leb, ltb, ◌==◌}
use cwstation.Webhooks.Model.{
  DeliveryStatus, pending, retrying, success, failed, dead, WebhookDelivery,
}

abbrev pub is_set : Option ℕ → Bool
is_set none = false
is_set (some t) = true

-- At least one attempt is made, whatever the setting says.
abbrev pub may_try : ℕ → ℕ → Bool
may_try attempt max_attempts = attempt == 0 || ltb attempt max_attempts

abbrev pub sound_as : DeliveryStatus → ℕ → ℕ → Bool → Bool
sound_as pending attempt most cursor = may_try attempt most && not cursor
sound_as retrying attempt most cursor = (leb 1 attempt && ltb attempt most) && cursor
sound_as success attempt most cursor =
    (leb 1 attempt && (attempt == 1 || leb attempt most)) && not cursor
sound_as dead attempt most cursor =
    (leb 1 attempt && (leb most attempt && (attempt == 1 || leb attempt most))) && not cursor
sound_as failed attempt most cursor = false

-- The retry cursor is set while a row waits for a retry, and only then; attempts are bounded, and a
-- row is dead when all of them are used up.
unfoldable pub sound : WebhookDelivery → Bool
sound d = sound_as d.status d.attempt d.max_attempts (is_set d.next_attempt_at)
