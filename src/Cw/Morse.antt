-- ===== src/Cw/Morse.antt =====
-- apps/cw/engine/morse.py: the Morse tables, `decode_symbol` and `encode_text`.
-- A text is the list of its code points. `str.upper` is modelled on ASCII letters.
mod Table
pub mod RoundTrip
pub mod Spaces
mod Tests
unfoldable pub use Table.{char_to_morse, unknown_char}
use cwstation.Prelude.{
  ℕ, zero, suc, ◌-◌, Bool, true, not, ◌||◌, Option, none, some, List, [], ◌∷◌, ◌++◌, map, foldl,
  Text, codes, dict_get, dict_set, to_upper, length, ◌==◌, if◌then◌else◌, take,
}

-- `ch.startswith("<")`
pub is_prosign : Text → Bool
is_prosign [] = Bool.false
is_prosign (c ∷ _) = c == b'<'

is_known : {V : Type 0} → Text → List (Text × V) → Bool
is_known k m = elim (dict_get k m) [ none ↦ Bool.false | some _ ↦ true ]

-- The body of the loop that fills MORSE_TO_CHAR.
add_reverse : List (Text × Text) → Text × Text → List (Text × Text)
unfolding is_known is_prosign
add_reverse m (ch, code) =
    if not (is_known code m) || not (is_prosign ch) then dict_set code ch m else m

unfoldable pub morse_to_char : List (Text × Text)
unfolding add_reverse
morse_to_char = foldl add_reverse [] char_to_morse

unfoldable pub decode_symbol : Text → Text
decode_symbol code = elim (dict_get code morse_to_char) [ none ↦ unknown_char | some ch ↦ ch ]

-- `up[i : end + 1]` where `end = up.find(">", i)`; `none` is the -1 of `find`.
through_gt : Text → Option Text
through_gt [] = none
through_gt (c ∷ rest) =
    let tail = through_gt rest in
    if c == b'>' then some (c ∷ []) else elim tail [ none ↦ none | some t ↦ some (c ∷ t) ]

-- The symbols that one round of the loop appends.
emit_char : ℕ → List Text
emit_char ch = elim (dict_get (ch ∷ []) char_to_morse) [ none ↦ [] | some code ↦ code ∷ [] ]

-- One round at `up[i:]`: what it appends, and how many more characters it consumes.
encode_step : ℕ → Text → List Text × ℕ
encode_step ch rest =
    if ch == b' '
    then (codes " " ∷ [], 0)
    else if ch == b'<'
    then (elim (through_gt (ch ∷ rest)) [
      | none ↦ (emit_char ch, 0)
      | some token ↦ elim (dict_get token char_to_morse) [
        | none ↦ (emit_char ch, 0)
        | some code ↦ (code ∷ [], length token - 1)
      ]
    ])
    else (emit_char ch, 0)

-- The `while i < len(up)` loop; the number counts the characters still to jump over.
pub encode_from : ℕ → Text → List Text
encode_from skip [] = []
encode_from (suc skip) (ch ∷ rest) = encode_from skip rest
encode_from zero (ch ∷ rest) =
    let (symbols, skip) = encode_step ch rest in symbols ++ encode_from skip rest

pub encode_text : Text → List Text
unfolding encode_from encode_step through_gt emit_char
encode_text text = encode_from 0 (map to_upper text)
