-- ===== src/Cw/Bridge/Tests.antt =====
-- Runs of the bridge, and the theorems at concrete inputs.
use cwstation.Prelude.{
  ℕ, ◌≡◌, refl, true, false, none, List, [], ◌∷◌, codes, Text, length, replicate, arith, strip,
  is_space, lstrip, strip_end,
}
use cwstation.Cw.Milli.{milli, ℤ, pos}
use cwstation.Cw.Events.{CharEvent}
use cwstation.Cw.Decoder.State.{CwConfig, new}
use cwstation.Cw.Decoder.Stream.{process}
use cwstation.Cw.Bridge.{
  new_bridge, is_callsign, is_rst, has_plausible_prefix, mem_text, admits, note_word, note_stripped,
  flush_word, on_gap, on_char, on_events,
}
use cwstation.Cw.Bridge.Ready.{process-never_ready}
use cwstation.Cw.Bridge.Calls.{
  all_calls, on_events-all_calls, hear_words, short_call_never_admitted,
}

abbrev heard : Text → List (CharEvent ℕ)
heard [] = []
heard (c ∷ rest) =
    record {
      char = c ∷ [];
      morse = [];
      t_start = 0;
      t_end = 0;
      wpm = 20;
      snr_db = 0;
      confidence = 1;
    }
    ∷ heard rest

program : Unit {0}
unfolding new_bridge strip is_callsign is_rst has_plausible_prefix mem_text admits note_word
    note_stripped flush_word on_gap on_char on_events lstrip strip_end is_space
program = tt

exchange :
    ((on_events (heard (codes "CQ DE K1A O1E O1E UR 599 ")) (new_bridge 3)).0.draft.callsigns
      ≡ codes "K1A" ∷ [])
    × ((on_events (heard (codes "CQ DE K1A O1E O1E UR 599 ")) (new_bridge 3)).0.draft.rst
        ≡ codes "599" ∷ [])
unfolding program
exchange = (refl, refl)

-- Three gaps in a row, which the decoder never sends, do hand the draft out.
three_gaps : length (on_events (heard (codes "HI   ")) (new_bridge 3)).1 ≡ 1
unfolding program
three_gaps = refl

on_events-all_calls_example :
    all_calls (on_events (heard (codes "DE K1A ")) (new_bridge 3)).0.draft.callsigns ≡ true
on_events-all_calls_example =
    on_events-all_calls (heard (codes "DE K1A ")) (new_bridge 3) (unfold new_bridge in refl)

short_call_never_admitted_example :
    mem_text
      (codes "K1A")
      (hear_words (codes "K1A" ∷ codes "K1A" ∷ []) (new_bridge 3)).draft.callsigns
    ≡ false
unfolding program
short_call_never_admitted_example =
    short_call_never_admitted (codes "K1A" ∷ codes "K1A" ∷ []) (codes "K1A") (new_bridge 3)
      (omega arith) refl refl refl

abbrev config : CwConfig ℤ
config = record {
  tone_hz = pos 600000;
  block_ms = pos 4000;
  expected_wpm = none;
  min_wpm = pos 5000;
  max_wpm = pos 60000;
  env_smooth = pos 300;
  peak_release = pos 3;
  floor_rise = pos 4;
  hysteresis = pos 200;
  debounce_ms = pos 3000;
  boot_marks = 8;
  squelch_db = pos 0;
}

process-never_ready_example :
    (on_events
      (process ⦃fl = milli⦄ (replicate 9 (pos 1000)) (new ⦃fl = milli⦄ 8000 config)).1
      (new_bridge 3)).1
    ≡ []
process-never_ready_example =
    process-never_ready ⦃fl = milli⦄ (replicate 9 (pos 1000)) 8000 config 3 (omega arith)
