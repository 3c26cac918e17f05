-- ===== src/Cw/Transmit.antt =====
-- apps/cw/transmit.py: transmit_session. The sessions' audio and the player are parameters; the pause
-- between keying and playing, which touches no state, is left out.
use cwstation.Prelude.{ℕ, Bool, true, false, not, Option, none, some, List, [], if◌then◌else◌}
use cwstation.Cw.Rig.{
  RigReply, value, rig_error, other_error, Event, played, Link, RigctldClient, new_client,
  log_event, connect, close, get_ptt, set_ptt,
}

-- `audio` is `none` where session_audio_float raises.
pub record CwSession : Type 0 where
  pub pk : ℕ
  pub has_audio : Bool
  pub audio : Option ℕ

pub record CwRig : Type 0 where
  pub use_ptt : Bool

-- The error that the state shows: none, the text of a RigError, or "TX failed: …".
pub data TxError : Type 0 where
  no_error rig_failed tx_failed : TxError

-- `_lock` and `_state`
pub record TxState : Type 0 where
  pub locked : Bool
  pub transmitting : Bool
  pub session_id : Option ℕ
  pub error : TxError

-- What the handlers of `run` make of an exception.
abbrev pub error_of : RigReply (Unit {0}) → TxError → TxError
error_of (value _) e = e
error_of rig_error e = rig_failed
error_of other_error e = tx_failed

module _ ⦃link : Link⦄ where
  -- A `finally`: the exception of the second part takes the place of the first one's.
  abbrev pub finally_of :
      RigReply (Unit {0})
      → RigReply (Unit {0}) × RigctldClient
      → RigReply (Unit {0}) × RigctldClient
  finally_of r (value _, c) = (r, c)
  finally_of r (rig_error, c) = (rig_error, c)
  finally_of r (other_error, c) = (other_error, c)

  -- The inner `try`: the audio, then PTT off.
  unfoldable pub play_out :
      CwRig → RigReply (Unit {0}) → RigctldClient → RigReply (Unit {0}) × RigctldClient
  play_out rig heard c =
      let after = log_event played c in
      if rig.use_ptt then finally_of heard (set_ptt false after) else (heard, after)

  abbrev pub keyed_with :
      CwRig
      → RigReply (Unit {0})
      → RigReply (Unit {0}) × RigctldClient
      → RigReply (Unit {0}) × RigctldClient
  keyed_with rig heard (value _, c) = play_out rig heard c
  keyed_with rig heard (rig_error, c) = (rig_error, c)
  keyed_with rig heard (other_error, c) = (other_error, c)

  abbrev pub key_with :
      CwRig
      → RigReply (Unit {0})
      → RigReply Bool × RigctldClient
      → RigReply (Unit {0}) × RigctldClient
  key_with rig heard (value on, c) =
      if on then (rig_error, c) else keyed_with rig heard (set_ptt true c)
  key_with rig heard (rig_error, c) = (rig_error, c)
  key_with rig heard (other_error, c) = (other_error, c)

  abbrev pub connected_with :
      CwRig
      → RigReply (Unit {0})
      → RigReply (Unit {0}) × RigctldClient
      → RigReply (Unit {0}) × RigctldClient
  connected_with rig heard (value _, c) =
      if rig.use_ptt then key_with rig heard (get_ptt c) else play_out rig heard c
  connected_with rig heard (rig_error, c) = (rig_error, c)
  connected_with rig heard (other_error, c) = (other_error, c)

  -- The body of the outer `try` of `run`; `heard` is how the player ends.
  unfoldable pub key_and_play : CwRig → RigReply (Unit {0}) → RigReply (Unit {0}) × RigctldClient
  key_and_play rig heard = connected_with rig heard (connect new_client)

  -- `run`, with its handlers and its `finally`.
  unfoldable pub run : CwRig → CwSession → RigReply (Unit {0}) → TxState → TxState × List Event
  run rig session heard s =
      let begun = record s {
        transmitting = true;
        session_id = some session.pk;
        error = no_error;
      } in
      let r = key_and_play rig heard in
      (
        record begun {
          error = error_of r.0 begun.error;
          transmitting = false;
          session_id = none;
          locked = false;
        },
        (close r.1).trace,
      )

  -- Without `blocking` the run is left to a thread, which has the lock for its own.
  abbrev pub started :
      Bool
      → CwRig
      → CwSession
      → RigReply (Unit {0})
      → Option ℕ
      → TxState
      → RigReply (Unit {0}) × (TxState × List Event)
  started blocking rig session heard none s = (other_error, (s, []))
  started true rig session heard (some _) s = (value tt, run rig session heard s)
  started false rig session heard (some _) s = (value tt, (s, []))

  -- The call, what the rig was sent, and the state behind it.
  unfoldable pub transmit_session :
      Bool
      → CwRig
      → CwSession
      → RigReply (Unit {0})
      → TxState
      → RigReply (Unit {0}) × (TxState × List Event)
  transmit_session blocking rig session heard s =
      if not session.has_audio
      then (rig_error, (s, []))
      else if s.locked
      then (rig_error, (s, []))
      else started blocking rig session heard session.audio (record s { locked = true })
