-- ===== src/Cw/Decoder/Growth.antt =====
-- What the decoder emits is what it adds to the copy, and the copy stays singly spaced.
use cwstation.Prelude.{
  ℕ, ◌+◌, ◌≡◌, refl, sym, ap, ◌∙◌, Bool, true, false, ◌&&◌, not, Option, none, some, List, [], ◌∷◌,
  ◌++◌, append-nil, append_assoc, if◌then◌else◌, arith, Bool-cases, inl, inr, bool_eq, leb, length,
}
use cwstation.Cw.Floats.{Floats}
use cwstation.Cw.Events.{CharEvent, DecodeResult}
use cwstation.Cw.Morse.{decode_symbol}
use cwstation.Cw.Morse.Spaces.{no_space-decode_symbol}
use cwstation.Cw.Decoder.State.{CwDecoder, BootRun, Emits, ends_with_space, is_empty}
use cwstation.Cw.Decoder.Elements.{
  append_char, char_event, space_event, flush_symbol, flush_gap, flush_char, update_wpm,
  append_element, add_element_at, space_logic_at, add_element, add_element_at, space_logic,
  space_logic_at,
}
use cwstation.Cw.Decoder.Stream.{
  replay_run, replay_runs, replay_boot, estimate_dit, finish_boot, append_key_run, buffer_mark,
  buffer_space, mark_end_at, space_end_at, on_mark_end, on_space_end, commit, track,
  append_envelope, debounce, step, process,
}
use cwstation.Cw.Decoder.Spacing.{
  single_spaced, single_spaced-append_word, single_spaced-append_gap, copy, copy-append,
}

module _ ⦃fl : Floats⦄ where
  open fl use {F, lit, of_ℕ, div, sub, mul, lt}

  -- From the copy of one result to that of another, with the events emitted on the way.
  pub record Grows (r : DecodeResult F) (s : DecodeResult F) (out : List (CharEvent F))
      : Type 0 where
    pub chars : s.chars ≡ r.chars ++ out
    pub text : s.text ≡ r.text ++ copy out
    pub spaced : single_spaced r.text ≡ true → single_spaced s.text ≡ true

  Grows-same : {r s : DecodeResult F} → s.chars ≡ r.chars → s.text ≡ r.text → Grows r s []
  Grows-same {r} p q = record {
    chars = p ∙ sym (append-nil r.chars);
    text = q ∙ sym (append-nil r.text);
    spaced = λ h. rw q h;
  }

  Grows-trans :
      {r s t : DecodeResult F} {out more : List (CharEvent F)}
      → Grows r s out
      → Grows s t more
      → Grows r t (out ++ more)
  Grows-trans {r} {out} {more} g h = record {
    chars = h.chars ∙ ap (λ l. l ++ more) g.chars ∙ append_assoc r.chars out more;
    text =
        h.text
        ∙ ap (λ l. l ++ copy more) g.text
        ∙ append_assoc r.text (copy out) (copy more)
        ∙ ap (λ l. r.text ++ l) (sym (copy-append out more));
    spaced = λ x. h.spaced (g.spaced x);
  }

  pub record Emitted (d : CwDecoder F) (m : Emits) : Type 0 where
    pub grows : Grows d.result m.0.result m.1

  pub Emitted-same :
      {d e : CwDecoder F}
      → e.result.chars ≡ d.result.chars
      → e.result.text ≡ d.result.text
      → Emitted d (e, [])
  Emitted-same p q = record { grows = Grows-same p q }

  pub Emitted-seq :
      {d e f : CwDecoder F} {out more : List (CharEvent F)}
      → Emitted d (e, out)
      → Emitted e (f, more)
      → Emitted d (f, out ++ more)
  Emitted-seq g h = record { grows = Grows-trans g.grows h.grows }

  -- Only the copy of the starting point matters.
  regrow :
      {d e : CwDecoder F} {m : Emits}
      → Emitted e m
      → e.result.chars ≡ d.result.chars
      → e.result.text ≡ d.result.text
      → Emitted d m
  regrow {d} {e} {m} g p q = record {
    grows = record {
      chars = g.grows.chars ∙ ap (λ l. l ++ m.1) p;
      text = g.grows.text ∙ ap (λ l. l ++ copy m.1) q;
      spaced = λ h. g.grows.spaced (rw q h);
    };
  }

  append_char-Grows :
      (ev : CharEvent F) (d : CwDecoder F)
      → (single_spaced d.result.text ≡ true → single_spaced (d.result.text ++ ev.char) ≡ true)
      → Grows d.result (append_char ev d).result (ev ∷ [])
  unfolding append_char
  append_char-Grows ev d spaced = record { chars = refl; text = rw append-nil; spaced = spaced }

  flush_symbol-Emitted : (t_end : F) (d : CwDecoder F) → Emitted d (flush_symbol t_end d)
  unfolding flush_symbol
  flush_symbol-Emitted t_end d = elim (Bool-cases (is_empty d.cur)) [
    | inl e ↦ rw e (Emitted-same refl refl)
    | inr e ↦ rw e (record {
      grows = append_char-Grows (char_event t_end d) d (
          single_spaced-append_word d.result.text (decode_symbol d.cur)
            (no_space-decode_symbol d.cur));
    })
  ]

  flush_gap-Emitted :
      (t_end : F) (word : Bool) (d : CwDecoder F) → Emitted d (flush_gap t_end word d)
  unfolding flush_gap
  flush_gap-Emitted t_end word d =
      elim (Bool-cases
        (word && not (is_empty d.result.text) && not (ends_with_space d.result.text))) [
          | inl e ↦ rw e (record {
            grows =
                append_char-Grows (space_event t_end d) d
                  (single_spaced-append_gap d.result.text (ground arith) (ground arith));
          })
          | inr e ↦ rw e (Emitted-same refl refl)
        ]

  pub flush_char-Emitted :
      (t_end : F) (word : Bool) (d : CwDecoder F) → Emitted d (flush_char t_end word d)
  unfolding flush_char
  flush_char-Emitted t_end word d =
      Emitted-seq (flush_symbol-Emitted t_end d)
        (flush_gap-Emitted t_end word (flush_symbol t_end d).0)

  result-update_wpm : (d : CwDecoder F) → (update_wpm d).result ≡ d.result
  unfolding update_wpm
  result-update_wpm d = ground arith

  add_element-Emitted :
      (o : Option F) (t_start dur : F) (d : CwDecoder F)
      → Emitted d (add_element_at o t_start dur d, [])
  unfolding add_element_at append_element
  add_element-Emitted none t_start dur d = Emitted-same refl refl
  add_element-Emitted (some unit) t_start dur d =
      Emitted-same (ap (λ r. r.chars) (result-update_wpm _))
        (ap (λ r. r.text) (result-update_wpm _))

  space_logic-Emitted :
      (o : Option F) (dur t_end : F) (d : CwDecoder F) → Emitted d (space_logic_at o dur t_end d)
  unfolding space_logic_at
  space_logic-Emitted none dur t_end d = Emitted-same refl refl
  space_logic-Emitted (some unit) dur t_end d = elim (Bool-cases (lt dur (mul (lit 2 0) unit))) [
    | inl e ↦ rw e (Emitted-same refl refl)
    | inr e ↦ elim (Bool-cases (lt dur (mul (lit 5 0) unit))) [
      | inl f ↦ rw (e, f) (flush_char-Emitted t_end false d)
      | inr f ↦ rw (e, f) (flush_char-Emitted t_end true d)
    ]
  ]

  replay_run-Emitted : (r : BootRun F) (d : CwDecoder F) → Emitted d (replay_run r d)
  unfolding replay_run add_element space_logic
  replay_run-Emitted r d = elim (Bool-cases r.keyed) [
    | inl e ↦ rw e (add_element-Emitted d.dit_s r.t_start r.dur d)
    | inr e ↦ rw e (space_logic-Emitted d.dit_s r.dur _ d)
  ]

  replay_runs-Emitted : (rs : List (BootRun F)) (d : CwDecoder F) → Emitted d (replay_runs rs d)
  unfolding replay_runs
  replay_runs-Emitted [] d = Emitted-same refl refl
  replay_runs-Emitted (r ∷ rs) d =
      Emitted-seq (replay_run-Emitted r d) (replay_runs-Emitted rs (replay_run r d).0)

  replay_boot-Emitted : (d : CwDecoder F) → Emitted d (replay_boot d)
  unfolding replay_boot
  replay_boot-Emitted d =
      let start = update_wpm d in
      regrow {e = start} (record { grows = (replay_runs-Emitted d.boot_runs start).grows })
        (ap (λ r. r.chars) (result-update_wpm d)) (ap (λ r. r.text) (result-update_wpm d))

  pub finish_boot-Emitted : (d : CwDecoder F) → Emitted d (finish_boot d)
  unfolding finish_boot
  finish_boot-Emitted d =
      regrow (replay_boot-Emitted (record d { dit_s = some (estimate_dit d.boot_marks) })) refl refl

  -- A mark's end, whether it is buffered, completes the bootstrap or is an element.
  mark_end-Emitted :
      (o : Option F) (t_start dur : F) (d : CwDecoder F) → Emitted d (mark_end_at o t_start dur d)
  unfolding mark_end_at add_element buffer_mark
  mark_end-Emitted none t_start dur d =
      let d1 = buffer_mark t_start dur d in
      elim (Bool-cases (leb d1.cfg.boot_marks (length d1.boot_marks))) [
        | inl e ↦ rw e (regrow (finish_boot-Emitted d1) refl refl)
        | inr e ↦ rw e (Emitted-same refl refl)
      ]
  mark_end-Emitted (some unit) t_start dur d = add_element-Emitted d.dit_s t_start dur d

  pub on_mark_end-Emitted :
      (t_start dur : F) (d : CwDecoder F) → Emitted d (on_mark_end t_start dur d)
  unfolding on_mark_end append_key_run
  on_mark_end-Emitted t_start dur d =
      regrow (mark_end-Emitted d.dit_s t_start dur (append_key_run t_start dur d)) refl refl

  space_end-Emitted : (o : Option F) (dur : F) (d : CwDecoder F) → Emitted d (space_end_at o dur d)
  unfolding space_end_at buffer_space space_logic
  space_end-Emitted none dur d = Emitted-same (ground arith) (ground arith)
  space_end-Emitted (some unit) dur d = space_logic-Emitted d.dit_s dur _ d

  pub commit-Emitted :
      (new_state : Bool) (t_s : F) (d : CwDecoder F) → Emitted d (commit new_state t_s d)
  unfolding commit on_space_end
  commit-Emitted new_state t_s d = elim (Bool-cases d.state) [
    | inl e ↦
        simp e
          (record { grows = (on_mark_end-Emitted d.run_start_s (sub t_s d.run_start_s) d).grows })
    | inr e ↦
        simp e (record { grows = (space_end-Emitted d.dit_s (sub t_s d.run_start_s) d).grows })
  ]

  debounce-Emitted : (cand : Bool) (t_s : F) (d : CwDecoder F) → Emitted d (debounce cand t_s d)
  unfolding debounce
  debounce-Emitted cand t_s d = elim (Bool-cases (bool_eq cand d.state)) [
    | inl e ↦ simp e (Emitted-same refl refl)
    | inr e ↦ simp e (counted (if bool_eq cand d.cand then d.cand_count + 1 else 1))
  ]
    where
      counted :
          (n : ℕ)
          → Emitted d (
              if leb d.debounce_n n
              then commit cand t_s (record d { cand = cand; cand_count = n })
              else (record d { cand = cand; cand_count = n }, []))
      counted n = elim (Bool-cases (leb d.debounce_n n)) [
        | inl f ↦
            rw f (
              regrow (commit-Emitted cand t_s (record d { cand = cand; cand_count = n })) refl refl)
        | inr f ↦ rw f (Emitted-same refl refl)
      ]

  pub step-Emitted : (mag t_s : F) (d : CwDecoder F) → Emitted d (step mag t_s d)
  unfolding step append_envelope track
  step-Emitted mag t_s d =
      regrow (debounce-Emitted _ t_s (append_envelope t_s (track mag d))) refl refl

  -- Whatever floating-point arithmetic does, the events that `process` returns are what it appended
  -- to the result's characters, their text is what it appended to the result's text, and a singly
  -- spaced text stays one.
  pub process-Emitted : (mags : List F) (d : CwDecoder F) → Emitted d (process mags d)
  unfolding process
  process-Emitted [] d = Emitted-same refl refl
  process-Emitted (mag ∷ mags) d =
      let t_s = div (of_ℕ d.t_samples) (of_ℕ d.fs) in
      let d1 = (step mag t_s d).0 in
      Emitted-seq (step-Emitted mag t_s d) (
        regrow (process-Emitted mags (record d1 { t_samples = d1.t_samples + d1.block })) refl refl)
