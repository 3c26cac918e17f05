-- ===== src/Cw/Decoder/Elements.antt =====
-- apps/cw/engine/cw.py: from key runs to elements and characters. A method returns the new decoder
-- and the events that it emitted.
use cwstation.Prelude.{
  Bool, true, false, not, ◌&&◌, Option, none, some, [], ◌∷◌, ◌++◌, codes, text_eq, if◌then◌else◌,
}
use cwstation.Cw.Floats.{Floats}
use cwstation.Cw.Events.{ElementKind, dah, CharEvent}
use cwstation.Cw.Morse.{decode_symbol, unknown_char}
use cwstation.Cw.Decoder.State.{CwDecoder, Emits, truthy, ends_with_space, kind_text, is_empty}

module _ ⦃fl : Floats⦄ where
  open fl use {
    F, lit, of_ℕ, add, sub, mul, div, lt, le, is_zero, round, round_int, log10, clip, minimum,
    median,
  }

  -- `self.result.chars.append(ev)` and `self.result.text += ev.char`
  unfoldable pub append_char : CharEvent F → CwDecoder F → CwDecoder F
  append_char ev d = record d {
    result = record d.result { text = d.result.text ++ ev.char; chars = d.result.chars ++ ev ∷ [] };
  }

  abbrev pub char_event : F → CwDecoder F → CharEvent F
  char_event t_end d =
      let ch = decode_symbol d.cur in
      record {
        char = ch;
        morse = d.cur;
        t_start = round d.cur_start 4;
        t_end = round t_end 4;
        wpm = round d.wpm 1;
        snr_db = round d.snr 1;
        confidence = if text_eq ch unknown_char then lit 4 1 else lit 1 0;
      }

  abbrev pub space_event : F → CwDecoder F → CharEvent F
  space_event t_end d = record {
    char = codes " ";
    morse = [];
    t_start = round t_end 4;
    t_end = round t_end 4;
    wpm = round d.wpm 1;
    snr_db = round d.snr 1;
    confidence = lit 1 0;
  }

  -- The first `if` of `_flush_char`: the pending symbol becomes a character.
  unfoldable pub flush_symbol : F → CwDecoder F → Emits
  flush_symbol t_end d =
      if is_empty d.cur
      then (d, [])
      else (let ev = char_event t_end d in (record (append_char ev d) { cur = [] }, ev ∷ []))

  -- The second: a word gap is marked once.
  unfoldable pub flush_gap : F → Bool → CwDecoder F → Emits
  flush_gap t_end word d =
      if word && not (is_empty d.result.text) && not (ends_with_space d.result.text)
      then (let ev = space_event t_end d in (append_char ev d, ev ∷ []))
      else (d, [])

  unfoldable pub flush_char : F → Bool → CwDecoder F → Emits
  flush_char t_end word d =
      let (d1, out1) = flush_symbol t_end d in
      let (d2, out2) = flush_gap t_end word d1 in (d2, out1 ++ out2)

  unfoldable pub update_wpm : CwDecoder F → CwDecoder F
  update_wpm d = elim (truthy d.dit_s) [
    | none ↦ d
    | some unit ↦ record d { wpm = clip (div (lit 12 1) unit) d.cfg.min_wpm d.cfg.max_wpm }
  ]

  abbrev pub element_kind : F → F → ElementKind
  element_kind unit dur = if lt dur (mul (lit 2 0) unit) then ElementKind.dit else dah

  -- The rest of `_add_element` once the new speed is known.
  unfoldable pub append_element : ElementKind → F → F → CwDecoder F → CwDecoder F
  append_element kind t_start dur d = record d {
    cur_start = if is_empty d.cur then t_start else d.cur_start;
    cur = d.cur ++ kind_text kind;
    result = record d.result {
      elements =
          d.result.elements
          ++ record {
            kind = kind;
            t_start = round t_start 4;
            dur_ms = round (mul dur (lit 1000 0)) 2;
          }
            ∷ [];
    };
  }

  -- `_add_element` and `_space_logic` assert that the dit length is known; `none` is the failed
  -- assertion, which leaves the decoder alone.
  unfoldable pub add_element_at : Option F → F → F → CwDecoder F → CwDecoder F
  add_element_at none t_start dur d = d
  add_element_at (some unit) t_start dur d =
      let kind = element_kind unit dur in
      let target : F = elim kind [ ElementKind.dit ↦ dur | dah ↦ div dur (lit 3 0) ] in
      append_element kind t_start dur
        (update_wpm (record d { dit_s = some (add (mul (lit 8 1) unit) (mul (lit 2 1) target)) }))

  unfoldable pub add_element : F → F → CwDecoder F → CwDecoder F
  add_element t_start dur d = add_element_at d.dit_s t_start dur d

  unfoldable pub space_logic_at : Option F → F → F → CwDecoder F → Emits
  space_logic_at none dur t_end d = (d, [])
  space_logic_at (some unit) dur t_end d =
      if lt dur (mul (lit 2 0) unit)
      then (d, [])
      else if lt dur (mul (lit 5 0) unit)
      then flush_char t_end false d
      else flush_char t_end true d

  unfoldable pub space_logic : F → F → CwDecoder F → Emits
  space_logic dur t_end d = space_logic_at d.dit_s dur t_end d
