-- ===== src/Cw/Contacts.antt =====
-- import_adif (apps/cw/logbook.py) against its abstract view: a log is a set of contacts, each a
-- callsign and a minute, and to import a file is to add the contacts that it names.
use cwstation.Prelude.{
  ℕ, ◌≡◌, refl, sym, ap, subst, ◌∙◌, Bool, true, false, ◌&&◌, ◌||◌, Option, none, some, List, [],
  ◌∷◌, Text, text_eq, text_eq→eq, Bool-cases, inl, inr, arith, any_where, any_where-append,
}
use cwstation.Cw.Logbook.{When, Qso}
use cwstation.Cw.Adif.{parse_adif}
use cwstation.Cw.Import.{
  parse_adif_when, same_minute, last_minute, is_contact, Import, created_qso, import_found,
  import_record, import_records, import_adif,
}
use cwstation.Cw.Known.{call_of, if_raised}
use cwstation.Cw.Reimport.{not_raised, unraised_record}

-- The log, as the set of its contacts.
abbrev pub contacts_of : List Qso → Text → When → Bool
contacts_of log call w = any_where (is_contact call w) log

-- The contact that a record names, if it names one.
abbrev names_of : Text → Option When → Text → When → Bool
names_of [] o call w = false
names_of (c ∷ cs) none call w = false
names_of (c ∷ cs) (some v) call w = text_eq (c ∷ cs) call && same_minute v w

abbrev pub names : List (Text × Text) → Text → When → Bool
names fields call w = names_of (call_of fields) (parse_adif_when fields) call w

or_false : (b : Bool) → b ≡ (b || false)
or_false true = refl
or_false false = refl

or_assoc : (a b c : Bool) → ((a || b) || c) ≡ (a || (b || c))
or_assoc true b c = refl
or_assoc false b c = refl

any_where-implied {ℓ} :
    {A : Type ℓ} (p q : A → Bool) (xs : List A)
    → ((x : A) → p x ≡ true → q x ≡ true)
    → any_where p xs ≡ true
    → any_where q xs ≡ true
any_where-implied p q [] f h = h
any_where-implied p q (x ∷ xs) f h = ground (arith, f x, any_where-implied p q xs f)

same_minute_trans :
    (u v w : When) → same_minute u v ≡ true → same_minute v w ≡ true → same_minute u w ≡ true
same_minute_trans u v w h k = ground arith

-- A contact that is there under one name is there under each name for it.
contacts_of-same :
    (log : List Qso) (call c : Text) (v w : When)
    → contacts_of log c v ≡ true
    → (text_eq c call && same_minute v w) ≡ true
    → contacts_of log call w ≡ true
contacts_of-same log call c v w h k =
    let same : c ≡ call = text_eq→eq c call (ground arith) in
    any_where-implied (is_contact c v) (is_contact call w) log
      (λ q e.
        subst (λ t. (text_eq q.call t && same_minute q.when w) ≡ true) same
          (ground (arith, same_minute_trans q.when v w)))
      h

module _ (read_freq : Text → Option ℕ) where
  found-contacts_of :
      (c : Text) (o : Option When) (fields : List (Text × Text)) (s : Import) (call : Text)
      (w : When)
      → (import_found read_freq c o fields s).raised ≡ false
      → contacts_of (import_found read_freq c o fields s).log call w
        ≡ (contacts_of s.log call w || names_of c o call w)
  found-contacts_of [] o fields s call w h = or_false (contacts_of s.log call w)
  found-contacts_of (c ∷ cs) none fields s call w h = or_false (contacts_of s.log call w)
  found-contacts_of (c ∷ cs) (some v) fields s call w h =
      let in_range : same_minute v last_minute ≡ false = if_raised _ s _ h in
      elim (Bool-cases (contacts_of s.log (c ∷ cs) v)) [
        | inl d ↦
            rw (in_range, d)
              (elim (Bool-cases (text_eq (c ∷ cs) call && same_minute v w)) [
                | inl e ↦ rw (e, contacts_of-same s.log call (c ∷ cs) v w d e) refl
                | inr e ↦ rw e (or_false (contacts_of s.log call w))
              ])
        | inr d ↦
            rw (in_range, d)
              (any_where-append (is_contact call w) s.log
                  (created_qso read_freq (c ∷ cs) v fields ∷ [])
                ∙ ap (λ b. contacts_of s.log call w || b)
                    (sym (or_false (text_eq (c ∷ cs) call && same_minute v w))))
      ]

  records-contacts_of :
      (rs : List (List (Text × Text))) (s : Import) (call : Text) (w : When)
      → (import_records read_freq rs s).raised ≡ false
      → contacts_of (import_records read_freq rs s).log call w
        ≡ (contacts_of s.log call w || any_where (λ fields. names fields call w) rs)
  unfolding import_records
  records-contacts_of [] s call w h = or_false (contacts_of s.log call w)
  records-contacts_of (f ∷ rs) s call w h =
      let next : Import = import_record read_freq f s in
      let first : next.raised ≡ false = not_raised read_freq rs next h in
      let found : next ≡ import_found read_freq (call_of f) (parse_adif_when f) f s =
        unraised_record read_freq f s (not_raised read_freq (f ∷ rs) s h) in
      let here : contacts_of next.log call w ≡ (contacts_of s.log call w || names f call w) =
        ap (λ (t : Import). contacts_of t.log call w) found
        ∙ found-contacts_of (call_of f) (parse_adif_when f) f s call w
            (sym (ap (λ (t : Import). t.raised) found) ∙ first) in
      records-contacts_of rs next call w h
      ∙ ap (λ b. b || any_where (λ fields. names fields call w) rs) here
      ∙ or_assoc (contacts_of s.log call w) (names f call w)
          (any_where (λ fields. names fields call w) rs)

  -- An import that no exception ends adds to the set of contacts exactly those that the file names,
  -- whatever order they stand in, and takes none away.
  pub import_adif-contacts_of :
      (text : Text) (log : List Qso) (call : Text) (w : When)
      → (import_adif read_freq text log).raised ≡ false
      → contacts_of (import_adif read_freq text log).log call w
        ≡ (contacts_of log call w || any_where (λ fields. names fields call w) (parse_adif text))
  unfolding import_adif
  import_adif-contacts_of text log call w h =
      records-contacts_of (parse_adif text)
        (record { created = 0; duplicates = 0; errors = 0; raised = false; log = log }) call w h
