-- ===== src/Cw/Import.antt =====
-- apps/cw/logbook.py: import_adif on the log of one user. What Python's float and round make of a
-- frequency's text is a parameter. A datetime is the fields of its UTC time, so the minute from
-- `minute_lo` to `minute_hi` is the datetimes with the same fields down to the minute.
use cwstation.Prelude.{
  ℕ, ◌+◌, ◌-◌, ◌%◌, Bool, true, false, not, ◌&&◌, ◌||◌, Option, none, some, List, [], ◌∷◌, ◌++◌,
  map, take, drop, replicate, Text, codes, text_eq, leb, ltb, ◌==◌, if◌then◌else◌, length, is_digit,
  strip, to_lower, to_upper, number_from, dict_get, all_where, any_where,
}
use cwstation.Cw.Logbook.{When, Qso, band_for_freq}
use cwstation.Cw.Adif.{parse_adif}

-- `record.get(key, "")`
abbrev pub or_empty : Option Text → Text
or_empty none = []
or_empty (some v) = v

abbrev pub field_of : Text → List (Text × Text) → Text
field_of key fields = or_empty (dict_get key fields)

abbrev pub or_value : Text → Text → Text
or_value [] other = other
or_value (c ∷ cs) other = c ∷ cs

-- `int(text)` of two characters, where it is not negative: spaces around it and a sign are allowed.
abbrev unsigned : Text → Option ℕ
unsigned [] = none
unsigned (c ∷ cs) = if all_where is_digit (c ∷ cs) then some (number_from 0 (c ∷ cs)) else none

abbrev signed : Text → Option ℕ
signed [] = none
signed (c ∷ cs) =
    if c == b'+'
    then unsigned cs
    else if c == b'-'
    then if text_eq cs (codes "0") then some 0 else none
    else unsigned (c ∷ cs)

unfoldable pub read_int : Text → Option ℕ
read_int text = signed (strip text)

abbrev is_leap : ℕ → Bool
is_leap y = y % 4 == 0 && (not (y % 100 == 0) || y % 400 == 0)

abbrev days_in : ℕ → ℕ → ℕ
days_in y m =
    if m == 2
    then if is_leap y then 29 else 28
    else if m == 4 || (m == 6 || (m == 9 || m == 11))
    then 30
    else 31

-- `datetime.datetime(…)`: `none` is its ValueError.
unfoldable pub datetime : When → Option When
datetime w =
    if leb 1 w.year
      && (leb w.year 9999
          && (leb 1 w.month
              && (leb w.month 12
                  && (leb 1 w.day
                      && (leb w.day (days_in w.year w.month)
                          && (ltb w.hour 24 && (ltb w.minute 60 && ltb w.second 60)))))))
    then some w
    else none

abbrev pub time_of : Text → Option ℕ → Option ℕ → Option ℕ → Option When
time_of date (some h) (some m) (some s) = datetime (record {
  year = number_from 0 (take 4 date);
  month = number_from 0 (take 2 (drop 4 date));
  day = number_from 0 (take 2 (drop 6 date));
  hour = h;
  minute = m;
  second = s;
})
time_of date none _ _ = none
time_of date (some h) none _ = none
time_of date (some h) (some m) none = none

-- `ljust(6, "0")`
abbrev pub ljust : Text → Text
ljust text = text ++ replicate (6 - length text) b'0'

-- `_parse_adif_when`
unfoldable pub parse_adif_when : List (Text × Text) → Option When
parse_adif_when fields =
    let date = strip (field_of (codes "qso_date") fields) in
    let time_on = ljust (or_value (strip (field_of (codes "time_on") fields)) (codes "0000")) in
    if length date == 8 && all_where is_digit date
    then time_of date (read_int (take 2 time_on)) (read_int (take 2 (drop 2 time_on)))
        (read_int (take 2 (drop 4 time_on)))
    else none

abbrev pub same_minute : When → When → Bool
same_minute v w =
    v.year == w.year
    && (v.month == w.month && (v.day == w.day && (v.hour == w.hour && v.minute == w.minute)))

-- The last minute that a datetime can name: `minute_hi` behind it is an OverflowError.
abbrev pub last_minute : When
last_minute = record { year = 9999; month = 12; day = 31; hour = 23; minute = 59; second = 0 }

abbrev pub is_contact : Text → When → Qso → Bool
is_contact call w q = text_eq q.call call && same_minute q.when w

-- The counts, the log, and whether an exception has ended the import.
pub record Import : Type 0 where
  pub created : ℕ
  pub duplicates : ℕ
  pub errors : ℕ
  pub raised : Bool
  pub log : List Qso

module _ (read_freq : Text → Option ℕ) where
  -- `if record.get("freq")`, and the ValueError that is passed over
  abbrev pub freq_of : Text → Option ℕ
  freq_of [] = none
  freq_of (c ∷ cs) = read_freq (c ∷ cs)

  abbrev pub created_qso : Text → When → List (Text × Text) → Qso
  created_qso call w fields =
      let freq = freq_of (field_of (codes "freq") fields) in
      record {
        call = call;
        when = w;
        freq_mhz = freq;
        band = or_value (map to_lower (field_of (codes "band") fields)) (band_for_freq freq);
        mode =
            or_value
              (take 12 (
                map to_upper
                  (elim (dict_get (codes "mode") fields) [ none ↦ codes "CW" | some m ↦ m ])))
              (codes "CW");
        rst_sent = take 8 (field_of (codes "rst_sent") fields);
        rst_rcvd = take 8 (field_of (codes "rst_rcvd") fields);
        name = take 120 (field_of (codes "name") fields);
        qth = take 120 (field_of (codes "qth") fields);
        gridsquare = take 8 (field_of (codes "gridsquare") fields);
        country = take 64 (field_of (codes "country") fields);
        comment = field_of (codes "comment") fields;
      }

  abbrev pub import_contact : Text → When → List (Text × Text) → Import → Import
  import_contact call w fields s =
      if same_minute w last_minute
      then record s { raised = true }
      else if any_where (is_contact call w) s.log
      then record s { duplicates = s.duplicates + 1 }
      else record s { created = s.created + 1; log = s.log ++ created_qso call w fields ∷ [] }

  abbrev pub import_found : Text → Option When → List (Text × Text) → Import → Import
  import_found [] o fields s = record s { errors = s.errors + 1 }
  import_found (c ∷ cs) none fields s = record s { errors = s.errors + 1 }
  import_found (c ∷ cs) (some w) fields s = import_contact (c ∷ cs) w fields s

  -- The body of the loop, unless an exception has ended it.
  unfoldable pub import_record : List (Text × Text) → Import → Import
  import_record fields s =
      if s.raised
      then s
      else import_found (map to_upper (strip (field_of (codes "call") fields)))
          (parse_adif_when fields) fields s

  unfoldable pub import_records : List (List (Text × Text)) → Import → Import
  import_records [] s = s
  import_records (fields ∷ rest) s = import_records rest (import_record fields s)

  unfoldable pub import_adif : Text → List Qso → Import
  import_adif text log =
      import_records (parse_adif text)
        (record { created = 0; duplicates = 0; errors = 0; raised = false; log = log })
