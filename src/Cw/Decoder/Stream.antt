-- ===== src/Cw/Decoder/Stream.antt =====
-- apps/cw/engine/cw.py: the bootstrap, the envelope stage and the stream methods. The numpy product
-- that yields a block's magnitude and the automatic retuning are left out: `process` takes the
-- magnitudes of the blocks.
use cwstation.Prelude.{
  ◌+◌, Bool, true, false, not, ◌&&◌, ◌||◌, Option, none, some, List, [], ◌∷◌, ◌++◌, length, leb,
  bool_eq, if◌then◌else◌,
}
use cwstation.Cw.Floats.{Floats}
use cwstation.Cw.Decoder.State.{CwDecoder, BootRun, Emits, is_empty, rstrip}
use cwstation.Cw.Decoder.Elements.{flush_char, update_wpm, add_element, space_logic}

module _ ⦃fl : Floats⦄ where
  open fl use {
    F, lit, of_ℕ, add, sub, mul, div, lt, le, is_zero, round, round_int, log10, clip, minimum,
    median,
  }

  unfoldable pub keep_le : F → List F → List F
  keep_le bound [] = []
  keep_le bound (x ∷ xs) = let rest = keep_le bound xs in if le x bound then x ∷ rest else rest

  unfoldable pub estimate_dit : List F → F
  estimate_dit marks = median (keep_le (mul (lit 16 1) (minimum marks)) marks)

  -- One round of the loop of `_replay_boot`.
  unfoldable pub replay_run : BootRun F → CwDecoder F → Emits
  replay_run r d =
      if r.keyed
      then (add_element r.t_start r.dur d, [])
      else space_logic r.dur (add r.t_start r.dur) d

  unfoldable pub replay_runs : List (BootRun F) → CwDecoder F → Emits
  replay_runs [] d = (d, [])
  replay_runs (r ∷ rs) d =
      let (d1, out1) = replay_run r d in let (d2, out2) = replay_runs rs d1 in (d2, out1 ++ out2)

  unfoldable pub replay_boot : CwDecoder F → Emits
  replay_boot d =
      let (d1, out) = replay_runs d.boot_runs (update_wpm d) in
      (record d1 { boot_runs = []; boot_marks = [] }, out)

  -- `self._dit = self._estimate_dit()` and `self._replay_boot()`
  unfoldable pub finish_boot : CwDecoder F → Emits
  finish_boot d = replay_boot (record d { dit_s = some (estimate_dit d.boot_marks) })

  unfoldable pub append_key_run : F → F → CwDecoder F → CwDecoder F
  append_key_run t_start dur d = record d {
    result = record d.result {
      key_runs =
          d.result.key_runs
          ++ record {
            on = true;
            t_start = round t_start 4;
            dur_ms = round (mul dur (lit 1000 0)) 2;
          }
            ∷ [];
    };
  }

  unfoldable pub buffer_mark : F → F → CwDecoder F → CwDecoder F
  buffer_mark t_start dur d = record d {
    boot_runs = d.boot_runs ++ record { keyed = true; t_start = t_start; dur = dur } ∷ [];
    boot_marks = d.boot_marks ++ dur ∷ [];
  }

  unfoldable pub buffer_space : F → CwDecoder F → CwDecoder F
  buffer_space dur d = record d {
    boot_runs = d.boot_runs ++ record { keyed = false; t_start = d.run_start_s; dur = dur } ∷ [];
  }

  unfoldable pub mark_end_at : Option F → F → F → CwDecoder F → Emits
  mark_end_at none t_start dur d =
      let d1 = buffer_mark t_start dur d in
      if leb d1.cfg.boot_marks (length d1.boot_marks) then finish_boot d1 else (d1, [])
  mark_end_at (some _) t_start dur d = (add_element t_start dur d, [])

  unfoldable pub on_mark_end : F → F → CwDecoder F → Emits
  on_mark_end t_start dur d = mark_end_at d.dit_s t_start dur (append_key_run t_start dur d)

  unfoldable pub space_end_at : Option F → F → CwDecoder F → Emits
  space_end_at none dur d = (if is_empty d.boot_marks then d else buffer_space dur d, [])
  space_end_at (some _) dur d = space_logic dur (add d.run_start_s dur) d

  unfoldable pub on_space_end : F → CwDecoder F → Emits
  on_space_end dur d = space_end_at d.dit_s dur d

  unfoldable pub commit : Bool → F → CwDecoder F → Emits
  commit new_state t_s d =
      let dur = sub t_s d.run_start_s in
      let (d1, out) = if d.state then on_mark_end d.run_start_s dur d else on_space_end dur d in
      (record d1 { run_start_s = t_s; state = new_state; cand_count = 0 }, out)

  abbrev pub or_else : Option F → F → F
  or_else none x = x
  or_else (some y) _ = y

  -- `_step` up to the peak and floor trackers and the SNR estimate.
  unfoldable pub track : F → CwDecoder F → CwDecoder F
  track mag d =
      let c = d.cfg in
      let e : F = elim d.env [ none ↦ mag | some v ↦ add v (mul c.env_smooth (sub mag v)) ] in
      let pf : F × F = elim d.peak [
        | none ↦ (e, e)
        | some p ↦ elim d.floor [ none ↦ (e, e) | some f ↦ (p, f) ]
      ] in
      let (p, f) = pf in
      let peak = if lt p e then e else add p (mul c.peak_release (sub e p)) in
      let floor = if lt e f then e else add f (mul c.floor_rise (sub e f)) in
      record d {
        env = some e;
        peak = some peak;
        floor = some floor;
        snr = mul (lit 10 0) (log10 (div (add peak (lit 1 9)) (add floor (lit 1 9))));
      }

  abbrev pub range_of : CwDecoder F → F
  range_of d =
      let r = sub (or_else d.peak (lit 0 0)) (or_else d.floor (lit 0 0)) in
      if lt r (lit 1 9) then lit 1 9 else r

  unfoldable pub append_envelope : F → CwDecoder F → CwDecoder F
  append_envelope t_s d = record d {
    result = record d.result {
      envelope_t = d.result.envelope_t ++ round t_s 4 ∷ [];
      envelope_mag =
          d.result.envelope_mag
          ++ round (div (sub (or_else d.env (lit 0 0)) (or_else d.floor (lit 0 0))) (range_of d)) 4
            ∷ [];
      envelope_thr = d.result.envelope_thr ++ lit 5 1 ∷ [];
    };
  }

  -- The candidate state: hysteresis around the threshold, and the squelch.
  unfoldable pub candidate : CwDecoder F → Bool
  candidate d =
      let e = or_else d.env (lit 0 0) in
      let rng = range_of d in
      let thr = add (or_else d.floor (lit 0 0)) (mul (lit 5 1) rng) in
      let hi = add thr (mul d.cfg.hysteresis rng) in
      let lo = sub thr (mul d.cfg.hysteresis rng) in
      let squelched = lt (lit 0 0) d.cfg.squelch_db && lt d.snr d.cfg.squelch_db in
      if not d.state && lt hi e && not squelched
      then true
      else if d.state && (lt e lo || squelched)
      then false
      else d.cand

  -- The candidate must persist for `debounce_n` blocks before it is committed.
  unfoldable pub debounce : Bool → F → CwDecoder F → Emits
  debounce cand t_s d =
      if bool_eq cand d.state
      then (record d { cand = d.state; cand_count = 0 }, [])
      else (let d1 = record d {
        cand = cand;
        cand_count = if bool_eq cand d.cand then d.cand_count + 1 else 1;
      } in
          if leb d1.debounce_n d1.cand_count then commit cand t_s d1 else (d1, []))

  unfoldable pub step : F → F → CwDecoder F → Emits
  step mag t_s d0 = let d = append_envelope t_s (track mag d0) in debounce (candidate d) t_s d

  -- The loop of `process` over the magnitudes of its blocks.
  unfoldable pub process : List F → CwDecoder F → Emits
  process [] d = (d, [])
  process (mag ∷ mags) d =
      let (d1, out1) = step mag (div (of_ℕ d.t_samples) (of_ℕ d.fs)) d in
      let (d2, out2) = process mags (record d1 { t_samples = d1.t_samples + d1.block }) in
      (d2, out1 ++ out2)

  -- The first part of `flush`: a dangling mark is closed, and what it emits is dropped.
  unfoldable pub close_mark : F → CwDecoder F → CwDecoder F
  close_mark now d =
      if d.state
      then record (on_mark_end d.run_start_s (sub now d.run_start_s) d).0 { state = false }
      else d

  unfoldable pub flush_boot_at : Option F → CwDecoder F → Emits
  flush_boot_at none d = if is_empty d.boot_marks then (d, []) else finish_boot d
  flush_boot_at (some _) d = (d, [])

  unfoldable pub flush_boot : CwDecoder F → Emits
  flush_boot d = flush_boot_at d.dit_s d

  -- `flush` past its first test.
  unfoldable pub flush_open : CwDecoder F → Emits
  flush_open d =
      let now = div (of_ℕ d.t_samples) (of_ℕ d.fs) in
      let (d1, out1) = flush_boot (close_mark now d) in
      let (d2, out2) = flush_char now true d1 in
      (
        record d2 {
          flushed = true;
          result = record d2.result { text = rstrip d2.result.text; wpm_final = round d2.wpm 1 };
        },
        out1 ++ out2,
      )

  unfoldable pub flush : CwDecoder F → Emits
  flush d = if d.flushed then (d, []) else flush_open d
