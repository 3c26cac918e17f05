-- ===== src/Cw/Decoder/Tests.antt =====
-- A run of the decoder in thousandths, and the theorems at concrete inputs.
use cwstation.Prelude.{◌≡◌, refl, false, none, some, List, ◌++◌, codes, replicate}
use cwstation.Cw.Milli.{milli, ℤ, pos}
use cwstation.Cw.Decoder.State.{CwConfig, CwDecoder, new, reset, ends_with_space, rstrip, kind_text}
use cwstation.Cw.Decoder.Elements.{
  flush_char, add_element, add_element_at, append_element, update_wpm, space_logic, space_logic_at,
  flush_symbol, flush_gap, append_char,
}
use cwstation.Cw.Decoder.Stream.{
  process, flush, step, track, append_envelope, candidate, debounce, commit, on_mark_end,
  mark_end_at, on_space_end, space_end_at, append_key_run, buffer_mark, buffer_space, finish_boot,
  replay_boot, replay_runs, replay_run, estimate_dit, keep_le, close_mark, flush_boot,
  flush_boot_at, flush_open,
}
use cwstation.Cw.Decoder.Finish.{dropped, chars-flush}
use cwstation.Cw.Morse.{decode_symbol, morse_to_char, char_to_morse}
use cwstation.Cw.Decoder.Spacing.{copy}

-- 20 words a minute: a dit is 60 ms, and a block of 8 samples is 8 ms.
abbrev pub config : CwConfig ℤ
config = record {
  tone_hz = pos 600000;
  block_ms = pos 4000;
  expected_wpm = some (pos 20000);
  min_wpm = pos 5000;
  max_wpm = pos 60000;
  env_smooth = pos 1000;
  peak_release = pos 0;
  floor_rise = pos 0;
  hysteresis = pos 200;
  debounce_ms = pos 3000;
  boot_marks = 8;
  squelch_db = pos 0;
}

abbrev key : List ℤ
key =
    replicate 3 (pos 0)
    ++ (replicate 8 (pos 1000)
        ++ (replicate 8 (pos 0)
            ++ (replicate 24 (pos 1000) ++ (replicate 60 (pos 0) ++ replicate 8 (pos 1000)))))

abbrev decoded : CwDecoder ℤ
decoded = (process ⦃fl = milli⦄ key (new ⦃fl = milli⦄ 1000 config)).0

program : Unit {0}
unfolding new reset process step track append_envelope candidate debounce commit on_mark_end
    mark_end_at on_space_end space_end_at append_key_run buffer_mark buffer_space add_element
    add_element_at append_element update_wpm space_logic space_logic_at flush_char flush_symbol
    flush_gap append_char finish_boot replay_boot replay_runs replay_run estimate_dit keep_le
    close_mark flush_boot flush_boot_at flush_open flush kind_text ends_with_space rstrip
    decode_symbol morse_to_char char_to_morse
program = tt

-- "A", a word gap, and the mark of "E" that the end of the stream closes
run_key : (flush ⦃fl = milli⦄ decoded).0.result.text ≡ codes "A E"
unfolding program
run_key = refl

-- The speed is not given, two marks are wanted to estimate it, and the stream ends in the second.
abbrev blind : CwConfig ℤ
blind = record config { expected_wpm = none; boot_marks = 2 }

abbrev short_key : List ℤ
short_key =
    replicate 3 (pos 0)
    ++ (replicate 8 (pos 1000) ++ (replicate 24 (pos 0) ++ replicate 8 (pos 1000)))

abbrev dangling : CwDecoder ℤ
dangling = (process ⦃fl = milli⦄ short_key (new ⦃fl = milli⦄ 1000 blind)).0

-- The result holds "EE", and listeners are told of the second "E" only.
flush_drops :
    ((flush ⦃fl = milli⦄ dangling).0.result.text ≡ codes "EE")
    × (copy (flush ⦃fl = milli⦄ dangling).1 ≡ codes "E ")
    × (copy (dropped ⦃fl = milli⦄ dangling) ≡ codes "E")
unfolding program
flush_drops = (refl, refl, refl)

dangling_open : dangling.flushed ≡ false
unfolding program
dangling_open = refl

chars-flush_example :
    (flush ⦃fl = milli⦄ dangling).0.result.chars
    ≡ (dangling.result.chars ++ dropped ⦃fl = milli⦄ dangling) ++ (flush ⦃fl = milli⦄ dangling).1
chars-flush_example = chars-flush ⦃fl = milli⦄ dangling dangling_open
