-- ===== src/Cw/Morse/RoundTrip.antt =====
-- Coding and decoding Morse are inverse on the characters of the table.
use cwstation.Prelude.{
  dict_all, dict_all_sound, ℕ, ◌≡◌, refl, sym, ap, Bool, true, false, ◌&&◌, ◌||◌, not, none, some,
  List, [], ◌∷◌, ◌++◌, map, append_assoc, Text, codes, dict_get, to_upper, length, ◌==◌, text_eq,
  text_eq→eq, if◌then◌else◌, arith, Bool-cases, Option-cases, inl, inr,
}
use cwstation.Cw.Morse.{
  char_to_morse, morse_to_char, is_prosign, decode_symbol, through_gt, emit_char, encode_step,
  encode_from, encode_text,
}

-- The code's own entry decodes to itself, unless it is a prosign.
decodes_back : Text → Text → Bool
decodes_back ch code = is_prosign ch || text_eq (decode_symbol code) ch

-- No code is the word gap.
is_code : Text → Text → Bool
is_code ch code = not (text_eq code (codes " "))

-- What a code decodes to has that code.
encodes_back : Text → Text → Bool
encodes_back ch code = elim (dict_get (decode_symbol code) char_to_morse) [
  | none ↦ false
  | some c ↦ text_eq c code
]

table_decodes_back : dict_all decodes_back char_to_morse ≡ true
unfolding decodes_back is_prosign decode_symbol morse_to_char char_to_morse
table_decodes_back = refl

table_is_code : dict_all is_code char_to_morse ≡ true
unfolding is_code char_to_morse
table_is_code = refl

table_encodes_back : dict_all encodes_back char_to_morse ≡ true
unfolding encodes_back decode_symbol morse_to_char char_to_morse
table_encodes_back = refl

eq_of_encodes_back :
    (ch code : Text)
    → encodes_back ch code ≡ true
    → dict_get (decode_symbol code) char_to_morse ≡ some code
unfolding encodes_back
eq_of_encodes_back ch code h = elim (Option-cases (dict_get (decode_symbol code) char_to_morse)) [
  | inl e ↦ ground arith
  | inr (c, e) ↦ ground (arith, text_eq→eq c code)
]

-- Every code of CHAR_TO_MORSE decodes to a text that has this code in the table, and to the very
-- entry that it was looked up by unless that is a prosign.
pub decode_symbol-char_to_morse :
    (ch code : Text)
    → dict_get ch char_to_morse ≡ some code
    → (dict_get (decode_symbol code) char_to_morse ≡ some code)
      × (is_prosign ch ≡ false → decode_symbol code ≡ ch)
decode_symbol-char_to_morse ch code h =
    let back = dict_all_sound decodes_back char_to_morse ch code table_decodes_back h in
    (
      eq_of_encodes_back ch code
          (dict_all_sound encodes_back char_to_morse ch code table_encodes_back h),
      λ plain. unfold decodes_back in ground (arith, back, text_eq→eq (decode_symbol code) ch),
    )

-- What a receiver makes of the symbols: a word gap is a space, any other symbol is looked up.
abbrev pub read_symbol : Text → Text
read_symbol symbol = if text_eq symbol (codes " ") then codes " " else decode_symbol symbol

pub read_symbols : List Text → Text
read_symbols [] = []
read_symbols (symbol ∷ rest) = read_symbol symbol ++ read_symbols rest

-- A character that can be sent: a space, or a key of the table.
abbrev pub is_sendable : ℕ → Bool
is_sendable c = c == b' ' || elim (dict_get (c ∷ []) char_to_morse) [ none ↦ false | some _ ↦ true ]

pub keep_sendable : Text → Text
keep_sendable [] = []
keep_sendable (c ∷ rest) = if is_sendable c then c ∷ keep_sendable rest else keep_sendable rest

abbrev pub no_lt : Text → Bool
no_lt [] = true
no_lt (c ∷ rest) = not (c == b'<') && no_lt rest

read_symbols-append :
    (xs ys : List Text) → read_symbols (xs ++ ys) ≡ read_symbols xs ++ read_symbols ys
unfolding read_symbols
read_symbols-append [] ys = refl
read_symbols-append (x ∷ xs) ys = simp (read_symbols-append xs ys, append_assoc)

read_code :
    (c : ℕ) (code : Text)
    → (c == b'<') ≡ false
    → dict_get (c ∷ []) char_to_morse ≡ some code
    → read_symbol code ≡ c ∷ []
read_code c code plain h =
    let gap = dict_all_sound is_code char_to_morse (c ∷ []) code table_is_code h in
    let back = (decode_symbol-char_to_morse (c ∷ []) code h).1 in
    unfold is_code is_prosign in ground (arith, gap, back plain)

read-emit_char :
    (c : ℕ)
    → (c == b'<') ≡ false
    → (c == b' ') ≡ false
    → read_symbols (emit_char c) ≡ (if is_sendable c then c ∷ [] else [])
unfolding emit_char read_symbols
read-emit_char c plain no_gap = elim (Option-cases (dict_get (c ∷ []) char_to_morse)) [
  | inl e ↦ ground arith
  | inr (code, e) ↦ ground (arith, read_code c code plain e)
]

encode_step-plain :
    (c : ℕ) (rest : Text)
    → (c == b'<') ≡ false
    → (c == b' ') ≡ false
    → encode_step c rest ≡ (emit_char c, 0)
unfolding encode_step
encode_step-plain c rest plain other = rw (other, plain)

encode_step-gap :
    (c : ℕ) (rest : Text) → (c == b' ') ≡ true → encode_step c rest ≡ (codes " " ∷ [], 0)
unfolding encode_step
encode_step-gap c rest gap = rw gap

keep_sendable-cons :
    (c : ℕ) (rest : Text)
    → keep_sendable (c ∷ rest) ≡ (if is_sendable c then c ∷ [] else []) ++ keep_sendable rest
unfolding keep_sendable
keep_sendable-cons c rest = ground arith

read-encode_from :
    (up : Text) → no_lt up ≡ true → read_symbols (encode_from 0 up) ≡ keep_sendable up
unfolding encode_from
read-encode_from [] h = unfold read_symbols keep_sendable in refl
read-encode_from (c ∷ rest) h = elim (Bool-cases (c == b' ')) [
  | inl gap ↦
      rw
        (
          encode_step-gap c rest gap,
          read_symbols-append,
          read-encode_from rest (ground arith),
          keep_sendable-cons,
        )
        (unfold read_symbols in ground arith)
  | inr other ↦
      let plain : (c == b'<') ≡ false = ground arith in
      rw
        (
          encode_step-plain c rest plain other,
          read_symbols-append,
          read-emit_char c plain other,
          read-encode_from rest (ground arith),
        )
        (sym (keep_sendable-cons c rest))
]

-- A text with no "<" in it, sent and read back, is that text in capitals without the characters
-- that have no code.
pub read-encode_text :
    (text : Text)
    → no_lt (map to_upper text) ≡ true
    → read_symbols (encode_text text) ≡ keep_sendable (map to_upper text)
unfolding encode_text
read-encode_text text h = read-encode_from (map to_upper text) h

-- A prosign of the table is closed by its only ">".
is_closed : Text → Text → Bool
is_closed ch code =
    not (is_prosign ch) || elim (through_gt ch) [ none ↦ false | some t ↦ text_eq t ch ]

table_is_closed : dict_all is_closed char_to_morse ≡ true
unfolding is_closed is_prosign through_gt char_to_morse
table_is_closed = refl

eq_of_is_closed :
    (ch code : Text) → is_prosign ch ≡ true → is_closed ch code ≡ true → through_gt ch ≡ some ch
unfolding is_closed
eq_of_is_closed ch code prosign h = elim (Option-cases (through_gt ch)) [
  | inl e ↦ ground arith
  | inr (t, e) ↦ ground (arith, text_eq→eq t ch)
]

through_gt-append : (xs rest t : Text) → through_gt xs ≡ some t → through_gt (xs ++ rest) ≡ some t
unfolding through_gt
through_gt-append [] rest t h = cc
through_gt-append (x ∷ xs) rest t h = elim (Option-cases (through_gt xs)) [
  | inl e ↦ ground arith
  | inr (u, e) ↦ ground (arith, through_gt-append xs rest u e)
]

encode_from-skip : (xs rest : Text) → encode_from (length xs) (xs ++ rest) ≡ encode_from 0 rest
unfolding encode_from
encode_from-skip [] [] = refl
encode_from-skip [] (c ∷ rest) = refl
encode_from-skip (x ∷ xs) rest = encode_from-skip xs rest

encode_step-prosign :
    (c : ℕ) (xs code : Text)
    → (c == b'<') ≡ true
    → through_gt (c ∷ xs) ≡ some (c ∷ xs)
    → dict_get (c ∷ xs) char_to_morse ≡ some code
    → (rest : Text) → encode_step c (xs ++ rest) ≡ (code ∷ [], length xs)
unfolding encode_step
encode_step-prosign c xs code lt closed h rest =
    let no_gap : (c == b' ') ≡ false = ground arith in
    rw (no_gap, lt, through_gt-append (c ∷ xs) rest (c ∷ xs) closed, h)
      (ap (λ n. (code ∷ [], n)) (omega arith))

-- A prosign of the table, such as "<AR>", is sent as one symbol wherever it stands at the head of
-- what is left of the text, and sending goes on behind it.
pub encode_from-prosign :
    (prosign code rest : Text)
    → is_prosign prosign ≡ true
    → dict_get prosign char_to_morse ≡ some code
    → encode_from 0 (prosign ++ rest) ≡ code ∷ encode_from 0 rest
unfolding encode_from
encode_from-prosign [] code rest p h = unfold is_prosign in cc p
encode_from-prosign (c ∷ xs) code rest p h =
    let closed =
      eq_of_is_closed (c ∷ xs) code p
        (dict_all_sound is_closed char_to_morse (c ∷ xs) code table_is_closed h) in
    rw (encode_step-prosign c xs code (unfold is_prosign in p) closed h rest)
      (ap (λ t. code ∷ t) (encode_from-skip xs rest))
