-- ===== src/Cw/Bridge/Calls.antt =====
-- Which callsigns the bridge takes into a draft.
use cwstation.Prelude.{
  refl, ℕ, ◌==◌, all_where, is_upper, is_digit, ◌<◌, ◌≡◌, sym, subst, Bool, true, false, not, ◌&&◌,
  ◌||◌, List, [], ◌∷◌, ◌++◌, Text, codes, text_eq, text_eq→eq, length, arith, Bool-cases, inl, inr,
  strip,
}
use cwstation.Cw.Events.{CharEvent}
use cwstation.Cw.Bridge.{
  CwLogBridge, is_callsign, is_suffix, all_upper, mem_code, single_letter_prefixes, prefix_of,
  is_allocated, has_plausible_prefix, mem_text, admits, note_word, note_stripped, flush_word,
  on_gap, on_char, on_events,
}

-- A callsign, independently of the code: one of nine letters or any two, a digit, one to four letters.
abbrev is_single : ℕ → Bool
is_single a =
    a == b'B'
    || a == b'F'
    || a == b'G'
    || a == b'I'
    || a == b'K'
    || a == b'M'
    || a == b'N'
    || a == b'R'
    || a == b'W'

abbrev is_tail : Text → Bool
is_tail (a ∷ []) = is_upper a
is_tail (a ∷ b ∷ []) = is_upper a && is_upper b
is_tail (a ∷ b ∷ c ∷ []) = is_upper a && is_upper b && is_upper c
is_tail (a ∷ b ∷ c ∷ d ∷ []) = is_upper a && is_upper b && is_upper c && is_upper d
is_tail _ = false

abbrev pub has_call_shape : Text → Bool
has_call_shape (a ∷ b ∷ c ∷ rest) =
    is_single a && is_digit b && is_tail (c ∷ rest)
    || is_upper a && is_upper b && is_digit c && is_tail rest
has_call_shape _ = false

abbrev pub all_calls : List Text → Bool
all_calls ws = all_where has_call_shape ws

suffix-tail : (t : Text) → is_suffix t ≡ true → is_tail t ≡ true
unfolding is_suffix all_upper
suffix-tail [] h = cc
suffix-tail (a ∷ []) h = ground arith
suffix-tail (a ∷ b ∷ []) h = ground arith
suffix-tail (a ∷ b ∷ c ∷ []) h = ground arith
suffix-tail (a ∷ b ∷ c ∷ d ∷ []) h = ground arith
suffix-tail (a ∷ b ∷ c ∷ d ∷ e ∷ t) h = ground arith

single-letter : (a : ℕ) → mem_code a single_letter_prefixes ≡ true → is_single a ≡ true
unfolding mem_code
single-letter a h = ground arith

letter_no_digit : (a : ℕ) → is_upper a ≡ true → is_digit a ≡ false
letter_no_digit a h = ground arith

digit_no_letter : (a : ℕ) → is_digit a ≡ true → is_upper a ≡ false
digit_no_letter a h = ground arith

or_true : (x : Bool) → (x || true) ≡ true
or_true x = ground arith

one_letter :
    (ua db sb ub dc sr : Bool)
    → (ua && (db && sb || ub && dc && sr)) ≡ true
    → db ≡ true
    → ub ≡ false
    → (ua ≡ true) × (sb ≡ true)
one_letter ua db sb ub dc sr h d u = ground arith

two_letters :
    (ua db sb ub dc sr : Bool)
    → (ua && (db && sb || ub && dc && sr)) ≡ true
    → db ≡ false
    → (ua ≡ true) × (ub ≡ true) × (dc ≡ true) × (sr ≡ true)
two_letters ua db sb ub dc sr h d = ground arith

-- What `_flush_word` asks of a word is that shape.
is_callsign-shape :
    (w : Text) → is_callsign w ≡ true → has_plausible_prefix w ≡ true → has_call_shape w ≡ true
unfolding is_callsign has_plausible_prefix prefix_of is_allocated
is_callsign-shape [] h g = cc
is_callsign-shape (a ∷ []) h g = cc
is_callsign-shape (a ∷ b ∷ []) h g = cc
is_callsign-shape (a ∷ b ∷ c ∷ rest) h g = elim (Bool-cases (is_digit b)) [
  | inl one ↦
      let (letter, tail) =
        one_letter (is_upper a) (is_digit b) _ (is_upper b) (is_digit c) _ h one
          (digit_no_letter b one) in
      let prefix : mem_code a single_letter_prefixes ≡ true =
        rw (letter_no_digit a letter, one) at g in
      rw (single-letter a prefix, one, suffix-tail (c ∷ rest) tail) refl
  | inr two ↦
      let (first, second, digit, tail) =
        two_letters (is_upper a) (is_digit b) _ (is_upper b) (is_digit c) _ h two in
      rw (first, second, digit, suffix-tail rest tail) (or_true _)
]

all_calls-append :
    (ws : List Text) (w : Text) → all_calls (ws ++ w ∷ []) ≡ (all_calls ws && has_call_shape w)
all_calls-append [] w = ground arith
all_calls-append (v ∷ ws) w = ground (arith, all_calls-append ws w)

note_word-all_calls :
    (w : Text) (b : CwLogBridge)
    → all_calls b.draft.callsigns ≡ true
    → all_calls (note_word w b).draft.callsigns ≡ true
unfolding note_word admits
note_word-all_calls w b h =
    ground (arith, all_calls-append b.draft.callsigns w, is_callsign-shape w)

note_stripped-all_calls :
    (w : Text) (b : CwLogBridge)
    → all_calls b.draft.callsigns ≡ true
    → all_calls (note_stripped w b).draft.callsigns ≡ true
unfolding note_stripped
note_stripped-all_calls [] b h = h
note_stripped-all_calls (c ∷ rest) b h = note_word-all_calls (c ∷ rest) b h

on_char-all_calls :
    (char : Text) (b : CwLogBridge)
    → all_calls b.draft.callsigns ≡ true
    → all_calls (on_char char b).0.draft.callsigns ≡ true
unfolding on_char on_gap flush_word
on_char-all_calls char b h = elim (Bool-cases (text_eq char (codes " "))) [
  | inl e ↦ rw e (note_stripped-all_calls (strip b.word) _ h)
  | inr e ↦ rw e h
]

-- Whatever the bridge hears, its draft holds only words that consist of one of the letters BFGIKMNRW
-- or of any two letters, of a digit, and of one to four letters, if it started so.
pub on_events-all_calls :
    {F : Type 0} (evs : List (CharEvent F)) (b : CwLogBridge)
    → all_calls b.draft.callsigns ≡ true
    → all_calls (on_events evs b).0.draft.callsigns ≡ true
unfolding on_events
on_events-all_calls [] b h = h
on_events-all_calls (ev ∷ evs) b h =
    on_events-all_calls evs (on_char ev.char b).0 (on_char-all_calls ev.char b h)

-- The words that `_flush_word` is given, one after the other.
pub hear_words : List Text → CwLogBridge → CwLogBridge
hear_words [] b = b
hear_words (w ∷ ws) b = hear_words ws (flush_word (record b { word = w }))

abbrev pub no_de : List Text → Bool
no_de [] = true
no_de (w ∷ ws) = not (text_eq (strip w) (codes "DE")) && no_de ws

mem_text-append :
    (call w : Text) (ws : List Text)
    → mem_text call (ws ++ w ∷ []) ≡ (mem_text call ws || text_eq w call)
unfolding mem_text
mem_text-append call w [] = ground arith
mem_text-append call w (v ∷ ws) = ground (arith, mem_text-append call w ws)

-- The call is not in the draft, and the last word was not DE.
record IsUnheard (call : Text) (b : CwLogBridge) : Type 0 where
  absent : mem_text call b.draft.callsigns ≡ false
  not_de : text_eq b.prev_word (codes "DE") ≡ false

not_admitted :
    (call : Text) (b : CwLogBridge)
    → length call < 4
    → IsUnheard call b
    → admits b.prev_word call b.draft.callsigns ≡ false
unfolding admits
not_admitted call b short h = ground arith

-- Hearing the call itself does not help it.
note_word-IsUnheard_self :
    (call : Text) (b : CwLogBridge)
    → length call < 4
    → text_eq call (codes "DE") ≡ false
    → IsUnheard call b
    → IsUnheard call (note_word call b)
unfolding note_word
note_word-IsUnheard_self call b short other h = ground (arith, not_admitted call b short h)

note_word-IsUnheard :
    (call w : Text) (b : CwLogBridge)
    → length call < 4
    → text_eq w (codes "DE") ≡ false
    → IsUnheard call b
    → IsUnheard call (note_word w b)
note_word-IsUnheard call w b short other h = elim (Bool-cases (text_eq w call)) [
  | inl e ↦
      let same = text_eq→eq w call e in
      subst (λ v. IsUnheard call (note_word v b)) (sym same)
        (note_word-IsUnheard_self call b short (rw (← same) other) h)
  | inr e ↦ unfold note_word in ground (arith, mem_text-append call w b.draft.callsigns)
]

flush_word-IsUnheard :
    (call w : Text) (b : CwLogBridge)
    → length call < 4
    → text_eq (strip w) (codes "DE") ≡ false
    → IsUnheard call b
    → IsUnheard call (flush_word (record b { word = w }))
unfolding flush_word
flush_word-IsUnheard call w b short other h = go (strip w) other
  where
    start : CwLogBridge
    start = record b { word = [] }

    go : (v : Text) → text_eq v (codes "DE") ≡ false → IsUnheard call (note_stripped v start)
    go [] o = unfold note_stripped in record { absent = h.absent; not_de = h.not_de }
    go (c ∷ rest) o =
        unfold note_stripped in
        note_word-IsUnheard call (c ∷ rest) start short o
          (record { absent = h.absent; not_de = h.not_de })

hear_words-IsUnheard :
    (ws : List Text) (call : Text) (b : CwLogBridge)
    → length call < 4
    → no_de ws ≡ true
    → IsUnheard call b
    → IsUnheard call (hear_words ws b)
unfolding hear_words
hear_words-IsUnheard [] call b short plain h = h
hear_words-IsUnheard (w ∷ ws) call b short plain h =
    hear_words-IsUnheard ws call _ short (ground arith)
      (flush_word-IsUnheard call w b short (ground arith) h)

-- In the streaming bridge repetition never corroborates a call of fewer than four characters: as
-- long as no word is DE, the call is not taken into the draft, however often it is heard.
pub short_call_never_admitted :
    (ws : List Text) (call : Text) (b : CwLogBridge)
    → length call < 4
    → no_de ws ≡ true
    → mem_text call b.draft.callsigns ≡ false
    → text_eq b.prev_word (codes "DE") ≡ false
    → mem_text call (hear_words ws b).draft.callsigns ≡ false
short_call_never_admitted ws call b short plain absent not_de =
    (hear_words-IsUnheard ws call b short plain
      (record { absent = absent; not_de = not_de })).absent
