-- ===== src/Cw/AdifLines.antt =====
-- The fields of a line that adif_export writes are read back as one record by parse_adif
-- (apps/cw/logbook.py).
use cwstation.Prelude.{
  ℕ, ◌+◌, ◌≤◌, ◌≡◌, refl, sym, ap, ◌∙◌, Bool, true, ◌&&◌, List, [], ◌∷◌, ◌++◌, append_assoc,
  append-nil, map, Text, codes, text_eq, text_eq→eq, leb, ltb, dict_set, all_where,
  all_where-append, arith, Bool-cases, inl, inr,
}
use cwstation.Cw.Logbook.{join, adif_field, append_field}
use cwstation.Cw.Adif.{is_eor, match_tag, parse_from}
use cwstation.Cw.AdifFields.{is_name, parse_from-field}

all_three : {a b c : Bool} → a ≡ true → b ≡ true → c ≡ true → (a && (b && c)) ≡ true
all_three p q r = ground arith

leb_self : (n : ℕ) → leb n n ≡ true
leb_self n = ground arith

parse_from-space :
    (rest : Text) (current : List (Text × Text)) (records : List (List (Text × Text)))
    → parse_from (b' ' ∷ rest) 0 current records ≡ parse_from rest 0 current records
unfolding parse_from match_tag is_eor
parse_from-space rest current records = refl

-- Whatever order the fields are in, as long as each name's rank is greater than the one before.
module _ (rank : Text → ℕ) where
  abbrev pub ranked : ℕ → List (Text × Text) → Bool
  ranked k [] = true
  ranked k ((name, value) ∷ rest) =
      is_name name && (leb k (rank name) && ranked (rank name + 1) rest)

  abbrev pub below : ℕ → List (Text × Text) → Bool
  below k fields = all_where (λ f. ltb (rank f.0) k) fields

  ranked_from :
      (j k : ℕ) (fs : List (Text × Text)) → j ≤ k → ranked k fs ≡ true → ranked j fs ≡ true
  ranked_from j k [] h e = refl
  ranked_from j k ((name, value) ∷ rest) h e = ground arith

  pub append_field-ranked :
      (name value : Text) (fs : List (Text × Text))
      → is_name name ≡ true
      → ranked (rank name + 1) fs ≡ true
      → ranked (rank name) (append_field name value fs) ≡ true
  append_field-ranked name [] fs h e = ranked_from (rank name) (rank name + 1) fs (omega arith) e
  append_field-ranked name (c ∷ cs) fs h e = all_three h (leb_self (rank name)) e

  -- A key that no entry has goes to the end.
  dict_set_fresh :
      (k : ℕ) (name value : Text) (fields : List (Text × Text))
      → below k fields ≡ true
      → k ≤ rank name
      → dict_set name value fields ≡ fields ++ (name, value) ∷ []
  dict_set_fresh k name value [] b h = refl
  dict_set_fresh k name value ((j, v) ∷ rest) b h = elim (Bool-cases (text_eq j name)) [
    | inl e ↦ let same : rank j ≡ rank name = ap rank (text_eq→eq j name e) in ground (arith, same)
    | inr e ↦ rw e (ap (λ fs. (j, v) ∷ fs) (dict_set_fresh k name value rest (ground arith) h))
  ]

  below_more :
      (j k : ℕ) (fields : List (Text × Text))
      → j ≤ k
      → below j fields ≡ true
      → below k fields ≡ true
  below_more j k [] h b = refl
  below_more j k (f ∷ fs) h b = ground (arith, below_more j k fs h)

  below_snoc :
      (k : ℕ) (name value : Text) (fields : List (Text × Text))
      → below k fields ≡ true
      → k ≤ rank name
      → below (rank name + 1) (fields ++ (name, value) ∷ []) ≡ true
  below_snoc k name value fields b h =
      let old : below (rank name + 1) fields ≡ true =
        below_more k (rank name + 1) fields (omega arith) b in
      rw (all_where-append (λ f. ltb (rank f.0) (rank name + 1)) fields ((name, value) ∷ []), old)
        (ground arith)

  -- The fields of a line are added to the record that is being read.
  pub parse_from-fields :
      (k : ℕ) (fs current : List (Text × Text)) (rest : Text) (records : List (List (Text × Text)))
      → ranked k fs ≡ true
      → below k current ≡ true
      → parse_from (join (codes " ") (map adif_field fs) ++ rest) 0 current records
        ≡ parse_from rest 0 (current ++ fs) records
  unfolding join
  parse_from-fields k [] current rest records r b =
      ap (λ c. parse_from rest 0 c records) (sym (append-nil current))
  parse_from-fields k ((name, value) ∷ []) current rest records r b =
      parse_from-field name value rest current records (ground arith)
      ∙ ap (λ c. parse_from rest 0 c records) (dict_set_fresh k name value current b (ground arith))
  parse_from-fields k ((name, value) ∷ f ∷ fs) current rest records r b =
      let more : Text = join (codes " ") (map adif_field (f ∷ fs)) in
      let longer : List (Text × Text) = current ++ (name, value) ∷ [] in
      ap (λ t. parse_from t 0 current records)
        (append_assoc (adif_field (name, value)) (codes " " ++ more) rest)
      ∙ parse_from-field name value (b' ' ∷ (more ++ rest)) current records (ground arith)
      ∙ ap (λ c. parse_from (b' ' ∷ (more ++ rest)) 0 c records)
          (dict_set_fresh k name value current b (ground arith))
      ∙ parse_from-space (more ++ rest) longer records
      ∙ parse_from-fields (rank name + 1) (f ∷ fs) longer rest records (ground arith)
          (below_snoc k name value current b (ground arith))
      ∙ ap (λ c. parse_from rest 0 c records) (append_assoc current ((name, value) ∷ []) (f ∷ fs))
