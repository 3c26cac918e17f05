-- ===== src/Cw/Reimport.antt =====
-- An ADIF log that is imported twice (apps/cw/logbook.py).
use cwstation.Prelude.{
  ℕ, ◌+◌, ◌≡◌, refl, sym, ap, subst, ◌∙◌, true, false, not, Option, List, [], ◌∷◌, Text,
  if◌then◌else◌, Bool-cases, inl, inr, arith, all_where, count_where,
}
use cwstation.Cw.Logbook.{Qso}
use cwstation.Cw.Adif.{parse_adif}
use cwstation.Cw.Import.{
  parse_adif_when, Import, import_found, import_record, import_records, import_adif,
}
use cwstation.Cw.Known.{
  is_bad, call_of, known, plus_zero, if_not, found-known, found-keeps, found-counts, found-again,
}

module _ (read_freq : Text → Option ℕ) where
  -- An exception ends the import.
  raised_stays :
      (rs : List (List (Text × Text))) (s : Import)
      → s.raised ≡ true
      → import_records read_freq rs s ≡ s
  unfolding import_records import_record
  raised_stays [] s h = refl
  raised_stays (f ∷ rs) s h =
      let stays : import_record read_freq f s ≡ s =
        ap (λ b. if b then s else import_found read_freq (call_of f) (parse_adif_when f) f s) h in
      ap (import_records read_freq rs) stays ∙ raised_stays rs s h

  pub not_raised :
      (rs : List (List (Text × Text))) (s : Import)
      → (import_records read_freq rs s).raised ≡ false
      → s.raised ≡ false
  not_raised rs s h = elim (Bool-cases s.raised) [
    | inl e ↦ sym (ap (λ (t : Import). t.raised) (raised_stays rs s e)) ∙ h
    | inr e ↦ e
  ]

  pub unraised_record :
      (f : List (Text × Text)) (s : Import)
      → s.raised ≡ false
      → import_record read_freq f s ≡ import_found read_freq (call_of f) (parse_adif_when f) f s
  unfolding import_record
  unraised_record f s h =
      ap (λ b. if b then s else import_found read_freq (call_of f) (parse_adif_when f) f s) h

  records_keep :
      (rs : List (List (Text × Text))) (s : Import) (g : List (Text × Text))
      → known s.log g ≡ true
      → known (import_records read_freq rs s).log g ≡ true
  unfolding import_records import_record
  records_keep [] s g h = h
  records_keep (f ∷ rs) s g h =
      records_keep rs (import_record read_freq f s) g (elim (Bool-cases s.raised) [
        | inl e ↦ simp e h
        | inr e ↦ simp e (found-keeps read_freq (call_of f) (parse_adif_when f) f g s h)
      ])

  records_known :
      (rs : List (List (Text × Text))) (s : Import)
      → (import_records read_freq rs s).raised ≡ false
      → all_where (known (import_records read_freq rs s).log) rs ≡ true
  unfolding import_records
  records_known [] s h = refl
  records_known (f ∷ rs) s h =
      let next : Import = import_record read_freq f s in
      let first : next.raised ≡ false = not_raised rs next h in
      let before : s.raised ≡ false = not_raised (f ∷ rs) s h in
      let seen : known next.log f ≡ true =
        subst (λ (t : Import). known t.log f ≡ true) (sym (unraised_record f s before))
          (found-known read_freq (call_of f) (parse_adif_when f) f s
            (sym (ap (λ (t : Import). t.raised) (unraised_record f s before)) ∙ first)) in
      rw (records_keep rs next f seen, records_known rs next h) refl

  records_count :
      (rs : List (List (Text × Text))) (s : Import)
      → (import_records read_freq rs s).raised ≡ false
      → ((import_records read_freq rs s).errors ≡ s.errors + count_where is_bad rs)
        × ((import_records read_freq rs s).created + (import_records read_freq rs s).duplicates
            ≡ s.created + s.duplicates + count_where (λ f. not (is_bad f)) rs)
  unfolding import_records
  records_count [] s h = (plus_zero s.errors, plus_zero (s.created + s.duplicates))
  records_count (f ∷ rs) s h =
      let next : Import = import_record read_freq f s in
      let first : next.raised ≡ false = not_raised rs next h in
      let found : next ≡ import_found read_freq (call_of f) (parse_adif_when f) f s =
        unraised_record f s (not_raised (f ∷ rs) s h) in
      let counts =
        found-counts read_freq (call_of f) (parse_adif_when f) f s
          (sym (ap (λ (t : Import). t.raised) found) ∙ first) in
      let later = records_count rs next h in
      let errors_of : next.errors ≡ s.errors + (if is_bad f then 1 else 0) =
        ap (λ (t : Import). t.errors) found ∙ counts.0 in
      let contacts_of : next.created + next.duplicates
          ≡ s.created + s.duplicates + (if is_bad f then 0 else 1) =
        ap (λ (t : Import). t.created + t.duplicates) found ∙ counts.1 in
      (omega (arith, later.0, errors_of), omega (arith, later.1, contacts_of, if_not (is_bad f)))

  records_again :
      (rs : List (List (Text × Text))) (s : Import)
      → s.raised ≡ false
      → all_where (known s.log) rs ≡ true
      → import_records read_freq rs s ≡ record s {
        duplicates = s.duplicates + count_where (λ f. not (is_bad f)) rs;
        errors = s.errors + count_where is_bad rs;
      }
  unfolding import_records
  records_again [] s h k =
      ap (λ d. record s { duplicates = d }) (plus_zero s.duplicates)
      ∙ ap (λ e. record s { duplicates = s.duplicates + 0; errors = e }) (plus_zero s.errors)
  records_again (f ∷ rs) s h k =
      let d : ℕ = s.duplicates + (if is_bad f then 0 else 1) in
      let e : ℕ = s.errors + (if is_bad f then 1 else 0) in
      let d' : ℕ = count_where (λ f. not (is_bad f)) rs in
      let e' : ℕ = count_where is_bad rs in
      ap (import_records read_freq rs) (
        unraised_record f s h
        ∙ found-again read_freq (call_of f) (parse_adif_when f) f s (ground arith))
      ∙ records_again rs (record s { duplicates = d; errors = e }) h (ground arith)
      ∙ ap (λ n. record s { duplicates = n; errors = e + e' }) (omega (arith, if_not (is_bad f)))
      ∙ ap
          (λ n. record s {
            duplicates = s.duplicates + ((if not (is_bad f) then 1 else 0) + d');
            errors = n;
          })
          (omega arith)

  -- To import a file again is a no-op, if the first import was not ended by an exception: the log stays as
  -- the first one left it, nothing is created, each contact of the file counts as a duplicate, and as many
  -- records as before count as errors.
  pub import_adif-import_adif :
      (text : Text) (log : List Qso) (first second : Import)
      → import_adif read_freq text log ≡ first
      → first.raised ≡ false
      → import_adif read_freq text first.log ≡ second
      → (second.log ≡ first.log)
        × (second.created ≡ 0)
        × (second.duplicates ≡ first.created + first.duplicates)
        × (second.errors ≡ first.errors)
  unfolding import_adif
  import_adif-import_adif text log first second one h two =
      let rs : List (List (Text × Text)) = parse_adif text in
      let start : List Qso → Import =
        λ l. record { created = 0; duplicates = 0; errors = 0; raised = false; log = l } in
      let fine : (import_records read_freq rs (start log)).raised ≡ false =
        ap (λ (t : Import). t.raised) one ∙ h in
      let counts = records_count rs (start log) fine in
      let again : second ≡ record (start first.log) {
        duplicates = 0 + count_where (λ f. not (is_bad f)) rs;
        errors = 0 + count_where is_bad rs;
      } =
        sym two
        ∙ records_again rs (start first.log) refl (
            subst (λ (t : Import). all_where (known t.log) rs ≡ true) one
              (records_known rs (start log) fine)) in
      (
        ap (λ (t : Import). t.log) again,
        ap (λ (t : Import). t.created) again,
        ap (λ (t : Import). t.duplicates) again
            ∙ sym counts.1
            ∙ ap (λ (t : Import). t.created + t.duplicates) one,
        ap (λ (t : Import). t.errors) again ∙ sym counts.0 ∙ ap (λ (t : Import). t.errors) one,
      )
