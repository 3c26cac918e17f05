-- ===== src/Cw/AdifFields.antt =====
-- A field that adif_export writes is read back by parse_adif (apps/cw/logbook.py).
use cwstation.Prelude.{
  ℕ, suc, ◌+◌, ◌-◌, ◌≡◌, refl, ap, ◌∙◌, Bool, true, false, ◌&&◌, none, some, List, [], ◌∷◌, ◌++◌,
  append_assoc, map, take, Text, text_eq, length, length-append, is_digit, to_lower, number_from,
  dict_set, decimal, number_from-decimal, decimal-is_digit, decimal-cons, text_eq→eq, all_where,
  arith,
}
use cwstation.Cw.Logbook.{adif_field}
use cwstation.Cw.Adif.{
  is_word, span_while, Tag, count_of, name_of, match_tag, is_eor, push_record, parse_from,
}

span_while_all :
    (p : ℕ → Bool) (xs : Text) (c : ℕ) (rest : Text)
    → all_where p xs ≡ true
    → p c ≡ false
    → span_while p (xs ++ c ∷ rest) ≡ (xs, c ∷ rest)
span_while_all p [] c rest h e = rw e refl
span_while_all p (x ∷ xs) c rest h e =
    let here : p x ≡ true = ground arith in
    rw (span_while_all p xs c rest (ground arith) e, here) refl

take-length : (xs ys : Text) → take (length xs) (xs ++ ys) ≡ xs
take-length [] ys = refl
take-length (x ∷ xs) ys = ap (λ zs. x ∷ zs) (take-length xs ys)

parse_from_skip :
    (xs rest : Text) (current : List (Text × Text)) (records : List (List (Text × Text)))
    → parse_from (xs ++ rest) (length xs) current records ≡ parse_from rest 0 current records
unfolding parse_from
parse_from_skip [] rest current records = refl
parse_from_skip (x ∷ xs) rest current records = parse_from_skip xs rest current records

-- The name of a field: word characters, in small letters.
abbrev pub is_name : Text → Bool
is_name [] = false
is_name (c ∷ cs) = all_where is_word (c ∷ cs) && text_eq (map to_lower (c ∷ cs)) (c ∷ cs)

-- What stands behind the opening bracket of a field.
abbrev inside : Text → Text → Text
inside name value = name ++ b':' ∷ (decimal (length value) ++ b'>' ∷ value)

inside_append :
    (name value rest : Text)
    → inside name value ++ rest ≡ name ++ b':' ∷ (decimal (length value) ++ b'>' ∷ (value ++ rest))
inside_append name value rest =
    append_assoc name (b':' ∷ (decimal (length value) ++ b'>' ∷ value)) rest
    ∙ ap (λ t. name ++ b':' ∷ t) (append_assoc (decimal (length value)) (b'>' ∷ value) rest)

length-inside :
    (name value rest : Text)
    → (length (inside name value ++ rest) - length (value ++ rest)) + length value
      ≡ length (inside name value)
length-inside name value rest =
    let whole : length (inside name value ++ rest) ≡ length (inside name value) + length rest =
      length-append (inside name value) rest in
    let tail : length (value ++ rest) ≡ length value + length rest = length-append value rest in
    let front : length (inside name value)
        ≡ length name + suc (length (decimal (length value) ++ b'>' ∷ value)) =
      length-append name (b':' ∷ (decimal (length value) ++ b'>' ∷ value)) in
    let back : length (decimal (length value) ++ b'>' ∷ value)
        ≡ length (decimal (length value)) + suc (length value) =
      length-append (decimal (length value)) (b'>' ∷ value) in
    omega (arith, whole, tail, front, back)

count_of-gt :
    (name digits after : Text) (d : ℕ) (ds : Text)
    → digits ≡ d ∷ ds
    → count_of name (digits, b'>' ∷ after)
      ≡ some (record { name = map to_lower name; count = number_from 0 digits; after = after })
count_of-gt name digits after d ds e = rw e refl

match_tag-field :
    (name value rest : Text)
    → is_name name ≡ true
    → match_tag (b'<' ∷ (inside name value ++ rest))
      ≡ some (record { name = name; count = length value; after = value ++ rest })
unfolding match_tag
match_tag-field [] value rest h = cc
match_tag-field (c ∷ cs) value rest h =
    let n : ℕ = length value in
    let after : Text = value ++ rest in
    let word : all_where is_word (c ∷ cs) ≡ true = ground arith in
    let small : map to_lower (c ∷ cs) ≡ c ∷ cs =
      text_eq→eq (map to_lower (c ∷ cs)) (c ∷ cs) (ground arith) in
    let more = decimal-cons n in
    ap (λ t. name_of (span_while is_word t)) (inside_append (c ∷ cs) value rest)
    ∙ ap name_of (span_while_all is_word (c ∷ cs) b':' (decimal n ++ b'>' ∷ after) word refl)
    ∙ ap (count_of (c ∷ cs))
        (span_while_all is_digit (decimal n) b'>' after (decimal-is_digit n) refl)
    ∙ count_of-gt (c ∷ cs) (decimal n) after more.0 more.1 more.2
    ∙ ap (λ m. some (record { name = m; count = number_from 0 (decimal n); after = after })) small
    ∙ ap (λ k. some (record { name = c ∷ cs; count = k; after = after })) (number_from-decimal n)

pub parse_from-tag :
    (c : ℕ) (rest : Text) (tag : Tag) (current : List (Text × Text))
    (records : List (List (Text × Text)))
    → match_tag (c ∷ rest) ≡ some tag
    → parse_from (c ∷ rest) 0 current records
      ≡ parse_from rest
          ((length rest - length tag.after) + tag.count)
          (dict_set tag.name (take tag.count tag.after) current)
          records
unfolding parse_from
parse_from-tag c rest tag current records e =
    ap
      (λ o. elim o as (λ _. List (List (Text × Text))) [
        | some t ↦
            parse_from rest ((length rest - length t.after) + t.count)
              (dict_set t.name (take t.count t.after) current) records
        | none ↦ elim (is_eor (c ∷ rest)) [
          | true ↦ parse_from rest 4 [] (push_record current records)
          | false ↦ parse_from rest 0 current records
        ]
      ])
      e

-- Reading goes on behind the field, with its value in the record.
pub parse_from-field :
    (name value rest : Text) (current : List (Text × Text)) (records : List (List (Text × Text)))
    → is_name name ≡ true
    → parse_from (adif_field (name, value) ++ rest) 0 current records
      ≡ parse_from rest 0 (dict_set name value current) records
unfolding adif_field
parse_from-field name value rest current records h =
    let tag : Tag = record { name = name; count = length value; after = value ++ rest } in
    let inner : Text = inside name value ++ rest in
    parse_from-tag b'<' inner tag current records (match_tag-field name value rest h)
    ∙ ap
        (λ v.
          parse_from inner ((length inner - length (value ++ rest)) + length value)
            (dict_set name v current) records)
        (take-length value rest)
    ∙ ap (λ k. parse_from inner k (dict_set name value current) records)
        (length-inside name value rest)
    ∙ parse_from_skip (inside name value) rest (dict_set name value current) records
