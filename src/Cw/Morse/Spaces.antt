-- ===== src/Cw/Morse/Spaces.antt =====
-- What decodes is never a space.
use cwstation.Prelude.{
  ◌≡◌, refl, ap, ◌∙◌, Bool, true, ◌&&◌, not, none, some, [], ◌∷◌, Text, ◌==◌, dict_get, dict_all,
  dict_all_sound, Option-cases, inl, inr,
}
use cwstation.Cw.Morse.{char_to_morse, morse_to_char, decode_symbol, unknown_char}

abbrev pub no_space : Text → Bool
no_space [] = true
no_space (c ∷ rest) = not (c == b' ') && no_space rest

table_no_space : dict_all (λ _ ch. no_space ch) morse_to_char ≡ true
unfolding morse_to_char char_to_morse
table_no_space = refl

decode_symbol-known :
    (code ch : Text) → dict_get code morse_to_char ≡ some ch → decode_symbol code ≡ ch
unfolding decode_symbol
decode_symbol-known code ch e = rw (e, decode_symbol)

decode_symbol-unknown :
    (code : Text) → dict_get code morse_to_char ≡ none → decode_symbol code ≡ unknown_char
unfolding decode_symbol
decode_symbol-unknown code e = rw (e, decode_symbol)

-- No symbol decodes to a text with a space in it.
pub no_space-decode_symbol : (code : Text) → no_space (decode_symbol code) ≡ true
no_space-decode_symbol code = elim (Option-cases (dict_get code morse_to_char)) [
  | inl e ↦ ap no_space (decode_symbol-unknown code e)
  | inr (ch, e) ↦
      ap no_space (decode_symbol-known code ch e)
      ∙ dict_all_sound (λ _ t. no_space t) morse_to_char code ch table_no_space e
]
