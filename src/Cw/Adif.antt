-- ===== src/Cw/Adif.antt =====
-- apps/cw/logbook.py: parse_adif. The two searches of a round of the loop are one scan that takes the
-- tag that stands first; the loop's position moves by a count of characters to skip. Texts are ASCII.
use cwstation.Prelude.{
  ℕ, zero, suc, ◌+◌, ◌-◌, Bool, true, false, ◌&&◌, ◌||◌, Option, none, some, List, [], ◌∷◌, ◌++◌,
  map, take, Text, codes, text_eq, leb, ◌==◌, if◌then◌else◌, length, is_digit, is_upper, to_lower,
  number_from, dict_set,
}

-- `\w`
abbrev pub is_word : ℕ → Bool
is_word c = is_digit c || (is_upper c || (leb b'a' c && leb c b'z' || c == b'_'))

abbrev pub span_while : (ℕ → Bool) → Text → Text × Text
span_while p [] = ([], [])
span_while p (c ∷ rest) =
    let (run, left) = span_while p rest in if p c then (c ∷ run, left) else ([], c ∷ rest)

-- `[^>]*>`: what stands behind it.
abbrev pub after_gt : Text → Option Text
after_gt [] = none
after_gt (c ∷ rest) = if c == b'>' then some rest else after_gt rest

-- `(?::[^>]*)?>`
abbrev pub tag_end : Text → Option Text
tag_end [] = none
tag_end (c ∷ rest) = if c == b'>' then some rest else if c == b':' then after_gt rest else none

pub record Tag : Type 0 where
  pub name : Text
  pub count : ℕ
  pub after : Text

abbrev pub tag_of : Text → Text → Option Text → Option Tag
tag_of name digits none = none
tag_of name digits (some after) =
    some (record { name = map to_lower name; count = number_from 0 digits; after = after })

abbrev pub count_of : Text → Text × Text → Option Tag
count_of name ([], left) = none
count_of name (d ∷ ds, left) = tag_of name (d ∷ ds) (tag_end left)

abbrev pub name_of : Text × Text → Option Tag
name_of ([], left) = none
name_of (n ∷ ns, []) = none
name_of (n ∷ ns, c ∷ left) =
    if c == b':' then count_of (n ∷ ns) (span_while is_digit left) else none

-- `_ADIF_TAG.match`
unfoldable pub match_tag : Text → Option Tag
match_tag [] = none
match_tag (c ∷ rest) = if c == b'<' then name_of (span_while is_word rest) else none

-- `<eor>` and `<eoh>` with their case ignored
unfoldable pub is_eor : Text → Bool
is_eor text = text_eq (map to_lower (take 5 text)) (codes "<eor>")

unfoldable pub is_eoh : Text → Bool
is_eoh text = text_eq (map to_lower (take 5 text)) (codes "<eoh>")

-- `if current: records.append(current)`
abbrev pub push_record : List (Text × Text) → List (List (Text × Text)) → List (List (Text × Text))
push_record [] records = records
push_record (f ∷ fs) records = records ++ (f ∷ fs) ∷ []

unfoldable pub parse_from :
    Text → ℕ → List (Text × Text) → List (List (Text × Text)) → List (List (Text × Text))
parse_from [] skip current records = push_record current records
parse_from (c ∷ rest) (suc skip) current records = parse_from rest skip current records
parse_from (c ∷ rest) zero current records = elim (match_tag (c ∷ rest)) [
  | some tag ↦
      parse_from rest ((length rest - length tag.after) + tag.count)
        (dict_set tag.name (take tag.count tag.after) current) records
  | none ↦ elim (is_eor (c ∷ rest)) [
    | true ↦ parse_from rest 4 [] (push_record current records)
    | false ↦ parse_from rest 0 current records
  ]
]

-- The text behind the header, or all of it.
unfoldable pub body_from : Text → ℕ → Option Text
body_from [] skip = none
body_from (c ∷ rest) (suc zero) = some rest
body_from (c ∷ rest) (suc (suc skip)) = body_from rest (suc skip)
body_from (c ∷ rest) zero = elim (is_eoh (c ∷ rest)) [
  | true ↦ body_from rest 4
  | false ↦ body_from rest 0
]

abbrev pub or_text : Option Text → Text → Text
or_text none text = text
or_text (some body) text = body

unfoldable pub parse_adif : Text → List (List (Text × Text))
parse_adif text = parse_from (or_text (body_from text 0) text) 0 [] []
