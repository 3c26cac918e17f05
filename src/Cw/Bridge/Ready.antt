-- ===== src/Cw/Bridge/Ready.antt =====
-- When the bridge calls `on_qso_ready`.
use cwstation.Prelude.{
  ℕ, ◌≤◌, ◌≡◌, refl, subst, Bool, true, false, ◌&&◌, List, [], ◌∷◌, ◌++◌, Text, codes, text_eq,
  text_eq→eq, arith, Bool-cases, inl, inr, strip,
}
use cwstation.Cw.Floats.{Floats}
use cwstation.Cw.Events.{CharEvent}
use cwstation.Cw.Decoder.State.{CwConfig, new, reset}
use cwstation.Cw.Decoder.Stream.{process}
use cwstation.Cw.Decoder.Spacing.{single_from, ends_gap, single_from-append, copy}
use cwstation.Cw.Decoder.Growth.{process-Emitted}
use cwstation.Cw.Bridge.{
  CwLogBridge, new_bridge, note_word, note_stripped, flush_word, on_gap, on_char, on_events,
}

note_stripped-counters :
    (w : Text) (b : CwLogBridge)
    → ((note_stripped w b).space_run ≡ b.space_run) × ((note_stripped w b).gap_close ≡ b.gap_close)
unfolding note_stripped note_word
note_stripped-counters [] b = (refl, refl)
note_stripped-counters (c ∷ rest) b = ground arith

flush_word-counters :
    (b : CwLogBridge)
    → ((flush_word b).space_run ≡ b.space_run) × ((flush_word b).gap_close ≡ b.gap_close)
unfolding flush_word
flush_word-counters b = note_stripped-counters (strip b.word) (record b { word = [] })

and_right : (a b : Bool) → (a && b) ≡ true → b ≡ true
and_right a b h = ground arith

on_gap-first :
    (b : CwLogBridge)
    → 2 ≤ b.gap_close
    → b.space_run ≡ 0
    → ((on_gap b).1 ≡ []) × ((on_gap b).0.gap_close ≡ b.gap_close)
unfolding on_gap
on_gap-first b h zero_run = ground (arith, flush_word-counters b)

-- A bridge that waits for two gaps or more hands out no draft on a singly spaced copy.
on_events-single :
    {F : Type 0} (evs : List (CharEvent F)) (gap : Bool) (b : CwLogBridge)
    → 2 ≤ b.gap_close
    → (gap ≡ false → b.space_run ≡ 0)
    → single_from gap (copy evs) ≡ true
    → (on_events evs b).1 ≡ []
unfolding on_events on_char
on_events-single [] gap b wide run h = refl
on_events-single (ev ∷ evs) gap b wide run h = elim (Bool-cases (text_eq ev.char (codes " "))) [
  | inl e ↦
      let h' : single_from gap (codes " " ++ copy evs) ≡ true =
        subst (λ t. single_from gap (t ++ copy evs) ≡ true) (text_eq→eq ev.char (codes " ") e) h in
      let b1 = record b { draft = record b.draft { raw = b.draft.raw ++ ev.char } } in
      let (quiet, kept) = on_gap-first b1 wide (run (ground arith)) in
      rw (e, quiet)
        (on_events-single evs true (on_gap b1).0 (rw kept wide) (λ p. cc) (ground arith))
  | inr e ↦ rw e (
      on_events-single evs (ends_gap gap ev.char) _ wide (λ _. refl)
        (and_right _ _ (rw single_from-append at h)))
]

single_spaced-process :
    ⦃fl : Floats⦄ (mags : List fl.F) (fs : ℕ) (c : CwConfig fl.F)
    → single_from true (copy (process mags (new fs c)).1) ≡ true
unfolding new reset
single_spaced-process mags fs c =
    let grows = (process-Emitted mags (new fs c)).grows in rw grows.text at (grows.spaced refl)

-- As long as the decoder streams, the bridge that listens to it never calls `on_qso_ready`, whatever
-- is on the air, if it waits for two gaps or more (the program's default is three): the decoder
-- marks a word gap by one space and never by two.
pub process-never_ready :
    ⦃fl : Floats⦄ (mags : List fl.F) (fs : ℕ) (c : CwConfig fl.F) (gap_close : ℕ)
    → 2 ≤ gap_close
    → (on_events (process mags (new fs c)).1 (new_bridge gap_close)).1 ≡ []
process-never_ready mags fs c gap_close wide =
    on_events-single (process mags (new fs c)).1 true (new_bridge gap_close)
      (unfold new_bridge in wide) (λ p. cc) (single_spaced-process mags fs c)
