-- ===== src/Cw/Known.antt =====
-- What one record of an ADIF file does to the log, and which records an import adds nothing for
-- (import_adif of apps/cw/logbook.py).
use cwstation.Prelude.{
  ℕ, ◌+◌, ◌≡◌, refl, ap, Bool, true, false, not, ◌&&◌, Option, none, some, List, [], ◌∷◌, ◌++◌, map,
  Text, codes, text_eq_refl, if◌then◌else◌, strip, to_upper, Bool-cases, inl, inr, arith, any_where,
  any_where-append,
}
use cwstation.Cw.Logbook.{When, Qso}
use cwstation.Cw.Import.{
  field_of, parse_adif_when, same_minute, last_minute, is_contact, Import, created_qso,
  import_found,
}

-- A record that has no callsign or no time counts as an error.
abbrev pub is_bad_of : Text → Option When → Bool
is_bad_of [] o = true
is_bad_of (c ∷ cs) none = true
is_bad_of (c ∷ cs) (some w) = false

abbrev pub call_of : List (Text × Text) → Text
call_of fields = map to_upper (strip (field_of (codes "call") fields))

abbrev pub is_bad : List (Text × Text) → Bool
is_bad fields = is_bad_of (call_of fields) (parse_adif_when fields)

-- A record that an import would not add to the log.
abbrev pub known_of : Text → Option When → List Qso → Bool
known_of [] o log = true
known_of (c ∷ cs) none log = true
known_of (c ∷ cs) (some w) log =
    not (same_minute w last_minute) && any_where (is_contact (c ∷ cs) w) log

abbrev pub known : List Qso → List (Text × Text) → Bool
known log fields = known_of (call_of fields) (parse_adif_when fields) log

same_minute_self : (w : When) → same_minute w w ≡ true
same_minute_self w = ground arith

pub plus_zero : (n : ℕ) → n ≡ n + 0
plus_zero n = omega arith

pub if_not : (b : Bool) → ◌≡◌ {A = ℕ} (if not b then 1 else 0) (if b then 0 else 1)
if_not true = refl
if_not false = refl

pub if_raised :
    (b : Bool) (s t : Import)
    → (if b then record s { raised = true } else t).raised ≡ false
    → b ≡ false
if_raised true s t h = h
if_raised false s t h = refl

module _ (read_freq : Text → Option ℕ) where
  created-is_contact :
      (call : Text) (w : When) (fields : List (Text × Text))
      → is_contact call w (created_qso read_freq call w fields) ≡ true
  created-is_contact call w fields = rw (text_eq_refl call, same_minute_self w) refl

  -- What one record does to the import, and what it makes known.
  pub found-known :
      (call : Text) (o : Option When) (fields : List (Text × Text)) (s : Import)
      → (import_found read_freq call o fields s).raised ≡ false
      → known_of call o (import_found read_freq call o fields s).log ≡ true
  found-known [] o fields s h = refl
  found-known (c ∷ cs) none fields s h = refl
  found-known (c ∷ cs) (some w) fields s h =
      let in_range : same_minute w last_minute ≡ false = if_raised _ s _ h in
      elim (Bool-cases (any_where (is_contact (c ∷ cs) w) s.log)) [
        | inl d ↦ rw (in_range, d) d
        | inr d ↦
            rw
              (
                in_range,
                d,
                any_where-append (is_contact (c ∷ cs) w) s.log
                    (created_qso read_freq (c ∷ cs) w fields ∷ []),
                d,
                created-is_contact (c ∷ cs) w fields,
              )
              refl
      ]

  known-append :
      (call : Text) (o : Option When) (log more : List Qso)
      → known_of call o log ≡ true
      → known_of call o (log ++ more) ≡ true
  known-append [] o log more h = refl
  known-append (c ∷ cs) none log more h = refl
  known-append (c ∷ cs) (some w) log more h =
      ground (arith, any_where-append (is_contact (c ∷ cs) w) log more)

  pub found-keeps :
      (call : Text) (o : Option When) (fields g : List (Text × Text)) (s : Import)
      → known s.log g ≡ true
      → known (import_found read_freq call o fields s).log g ≡ true
  found-keeps [] o fields g s h = h
  found-keeps (c ∷ cs) none fields g s h = h
  found-keeps (c ∷ cs) (some w) fields g s h = elim (Bool-cases (same_minute w last_minute)) [
    | inl e ↦ rw e h
    | inr e ↦ elim (Bool-cases (any_where (is_contact (c ∷ cs) w) s.log)) [
      | inl d ↦ rw (e, d) h
      | inr d ↦
          rw (e, d)
            (known-append (call_of g) (parse_adif_when g) s.log
              (created_qso read_freq (c ∷ cs) w fields ∷ []) h)
    ]
  ]

  pub found-counts :
      (call : Text) (o : Option When) (fields : List (Text × Text)) (s : Import)
      → (import_found read_freq call o fields s).raised ≡ false
      → ((import_found read_freq call o fields s).errors
          ≡ s.errors + (if is_bad_of call o then 1 else 0))
        × ((import_found read_freq call o fields s).created
              + (import_found read_freq call o fields s).duplicates
            ≡ s.created + s.duplicates + (if is_bad_of call o then 0 else 1))
  found-counts [] o fields s h = (refl, omega arith)
  found-counts (c ∷ cs) none fields s h = (refl, omega arith)
  found-counts (c ∷ cs) (some w) fields s h =
      let in_range : same_minute w last_minute ≡ false = if_raised _ s _ h in
      elim (Bool-cases (any_where (is_contact (c ∷ cs) w) s.log)) [
        | inl d ↦ rw (in_range, d) (omega arith, omega arith)
        | inr d ↦ rw (in_range, d) (omega arith, omega arith)
      ]

  pub found-again :
      (call : Text) (o : Option When) (fields : List (Text × Text)) (s : Import)
      → known_of call o s.log ≡ true
      → import_found read_freq call o fields s ≡ record s {
        duplicates = s.duplicates + (if is_bad_of call o then 0 else 1);
        errors = s.errors + (if is_bad_of call o then 1 else 0);
      }
  found-again [] o fields s h =
      ap (λ d. record s { duplicates = d; errors = s.errors + 1 }) (plus_zero s.duplicates)
  found-again (c ∷ cs) none fields s h =
      ap (λ d. record s { duplicates = d; errors = s.errors + 1 }) (plus_zero s.duplicates)
  found-again (c ∷ cs) (some w) fields s h =
      let in_range : same_minute w last_minute ≡ false = ground arith in
      let there : any_where (is_contact (c ∷ cs) w) s.log ≡ true = ground arith in
      rw (in_range, there)
        (ap (λ e. record s { duplicates = s.duplicates + 1; errors = e }) (plus_zero s.errors))
