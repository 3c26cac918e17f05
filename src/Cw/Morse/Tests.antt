-- ===== src/Cw/Morse/Tests.antt =====
-- Runs of apps/cw/engine/morse.py, and the theorems at concrete inputs.
use cwstation.Prelude.{◌≡◌, refl, [], ◌∷◌, map, codes, to_upper}
use cwstation.Cw.Morse.{char_to_morse, morse_to_char, decode_symbol, encode_text, unknown_char}
use cwstation.Cw.Morse.RoundTrip.{read_symbols, keep_sendable, read-encode_text}

encode_cq :
    encode_text (codes "cq <sk>e")
    ≡ codes "-.-." ∷ codes "--.-" ∷ codes " " ∷ codes "...-.-" ∷ codes "." ∷ []
unfolding encode_text char_to_morse
encode_cq = refl

decode_collision : decode_symbol (codes ".-.-.") ≡ codes "+"
unfolding decode_symbol morse_to_char char_to_morse
decode_collision = refl

decode_unknown : decode_symbol (codes "........") ≡ unknown_char
unfolding decode_symbol morse_to_char char_to_morse
decode_unknown = refl

read-encode_text_example :
    read_symbols (encode_text (codes "hi ~om")) ≡ keep_sendable (map to_upper (codes "hi ~om"))
read-encode_text_example = read-encode_text (codes "hi ~om") refl
