-- ===== src/Cw/TransmitTests.antt =====
-- The theorem about transmissions at a concrete input.
use cwstation.Prelude.{
  ◌≡◌, ◌≢◌, ◌⊎◌, refl, true, false, if◌then◌else◌, none, some, List, [], ◌∷◌, Text, codes, text_eq,
  is_space, lstrip, strip_end, strip,
}
use cwstation.Cw.Rig.{
  RigReply, value, other_error, Event, sent, Link, connect, request, read_lines, is_report,
  last_word, get_ptt, set_ptt,
}
use cwstation.Cw.Transmit.{
  CwSession, no_error, tx_failed, TxState, key_and_play, play_out, run, transmit_session,
}
use cwstation.Cw.Unkeys.{Failed, whole_trace, transmit_session-unkeys}

-- A rig whose PTT is off and that takes every command.
abbrev reply_to : Event → Text
reply_to (sent command) = if text_eq command (codes "t") then codes "0" else codes "RPRT 0"
reply_to _ = codes "RPRT 0"

abbrev answer : List Event → Text
answer [] = codes "RPRT 0"
answer (e ∷ []) = reply_to e
answer (e ∷ f ∷ rest) = answer (f ∷ rest)

abbrev plain_link : Link
plain_link = record {
  connects = λ trace. true;
  writes = λ trace command. true;
  reads = λ trace k. some (answer trace);
}

abbrev a_session : CwSession
a_session = record { pk = 4; has_audio = true; audio = some 1 }

abbrev idle : TxState
idle = record { locked = false; transmitting = false; session_id = none; error = no_error }

-- The player fails on the way.
abbrev cut_off : RigReply (Unit {0}) × (TxState × List Event)
cut_off =
    transmit_session ⦃link = plain_link⦄ true (record { use_ptt = true }) a_session other_error idle

cut_off_run : cut_off ≡ (value tt, (record idle { error = tx_failed }, whole_trace))
unfolding transmit_session run key_and_play play_out connect request read_lines is_report last_word
    get_ptt set_ptt is_space lstrip strip_end strip
cut_off_run = refl

transmit_session-unkeys_example :
    (cut_off.1.0.locked ≡ false)
    × (cut_off.1.0.transmitting ≡ false)
    × ((cut_off.1.1 ≡ whole_trace) ⊎ ((cut_off.1.0.error ≢ no_error) × Failed cut_off.1.1))
transmit_session-unkeys_example =
    transmit_session-unkeys ⦃link = plain_link⦄ (record { use_ptt = true }) a_session other_error
      idle 1 refl refl refl refl
