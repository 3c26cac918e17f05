-- ===== src/Cw/Logbook.antt =====
-- apps/cw/logbook.py: bands, modes and the ADIF export. Frequencies are in units of 100 Hz, to which
-- the code rounds them; a `when` is the fields of a UTC datetime from the year 1000 on. Texts are
-- ASCII.
use cwstation.Prelude.{
  ℕ, ◌/◌, ◌%◌, Bool, true, false, ◌&&◌, ◌||◌, Option, none, some, List, [], ◌∷◌, ◌++◌, map, take,
  Text, codes, leb, ◌==◌, if◌then◌else◌, length, is_space, decimal, padded, to_upper,
}

pub record Band : Type 0 where
  pub lo : ℕ
  pub hi : ℕ
  pub name : Text

abbrev pub bands : List Band
bands =
    record { lo = 18000; hi = 20000; name = codes "160m" }
    ∷ record { lo = 35000; hi = 40000; name = codes "80m" }
    ∷ record { lo = 53000; hi = 54100; name = codes "60m" }
    ∷ record { lo = 70000; hi = 73000; name = codes "40m" }
    ∷ record { lo = 101000; hi = 101500; name = codes "30m" }
    ∷ record { lo = 140000; hi = 143500; name = codes "20m" }
    ∷ record { lo = 180680; hi = 181680; name = codes "17m" }
    ∷ record { lo = 210000; hi = 214500; name = codes "15m" }
    ∷ record { lo = 248900; hi = 249900; name = codes "12m" }
    ∷ record { lo = 280000; hi = 297000; name = codes "10m" }
    ∷ record { lo = 500000; hi = 540000; name = codes "6m" }
    ∷ record { lo = 1440000; hi = 1480000; name = codes "2m" }
    ∷ record { lo = 4200000; hi = 4500000; name = codes "70cm" }
    ∷ []

abbrev pub band_among : List Band → ℕ → Text
band_among [] freq = []
band_among (b ∷ rest) freq = if leb b.lo freq && leb freq b.hi then b.name else band_among rest freq

-- A missing frequency and a frequency of zero have no band.
unfoldable pub band_for_freq : Option ℕ → Text
band_for_freq none = []
band_for_freq (some freq) = if freq == 0 then [] else band_among bands freq

abbrev pub starts_with : Text → Text → Bool
starts_with [] text = true
starts_with (p ∷ ps) [] = false
starts_with (p ∷ ps) (c ∷ rest) = p == c && starts_with ps rest

-- `part in text`
abbrev pub contains : Text → Text → Bool
contains part [] = starts_with part []
contains part (c ∷ rest) = starts_with part (c ∷ rest) || contains part rest

-- `text.split(":", 1)[1]`
abbrev pub after_colon : Text → Text
after_colon [] = []
after_colon (c ∷ rest) = if c == b':' then rest else after_colon rest

-- The session's decoding engine; `none` is no session.
unfoldable pub mode_for_session : Option Text → Text
mode_for_session none = codes "CW"
mode_for_session (some engine) =
    let modem = map to_upper (after_colon engine) in
    if starts_with (codes "fldigi:") engine
    then if contains (codes "PSK") modem
      then if contains (codes "31") modem then codes "PSK31" else codes "PSK"
      else if contains (codes "RTTY") modem
      then codes "RTTY"
      else take 12 modem
    else codes "CW"

pub record When : Type 0 where
  pub year : ℕ
  pub month : ℕ
  pub day : ℕ
  pub hour : ℕ
  pub minute : ℕ
  pub second : ℕ

pub record Qso : Type 0 where
  pub call : Text
  pub when : When
  pub freq_mhz : Option ℕ
  pub band : Text
  pub mode : Text
  pub rst_sent : Text
  pub rst_rcvd : Text
  pub name : Text
  pub qth : Text
  pub gridsquare : Text
  pub country : Text
  pub comment : Text

-- `sep.join(texts)`
unfoldable pub join : Text → List Text → Text
join sep [] = []
join sep (t ∷ []) = t
join sep (t ∷ u ∷ rest) = t ++ (sep ++ join sep (u ∷ rest))

-- `text.split()`: `word` is the word that is being read.
abbrev pub end_word : Text → List Text → List Text
end_word [] words = words
end_word (c ∷ cs) words = (c ∷ cs) ∷ words

abbrev pub split_from : Text → Text → List Text
split_from word [] = end_word word []
split_from word (c ∷ rest) =
    let ended = split_from [] rest in
    let longer = split_from (word ++ c ∷ []) rest in
    if is_space c then end_word word ended else longer

unfoldable pub one_line : Text → Text
one_line text = join (codes " ") (split_from [] text)

-- `strftime("%Y%m%d")` and `strftime("%H%M%S")`
unfoldable pub date_text : When → Text
date_text w = decimal w.year ++ padded 2 w.month ++ padded 2 w.day

unfoldable pub time_text : When → Text
time_text w = padded 2 w.hour ++ padded 2 w.minute ++ padded 2 w.second

-- `f"{freq:.4f}"`
unfoldable pub freq_text : ℕ → Text
freq_text freq = decimal (freq / 10000) ++ codes "." ++ padded 4 (freq % 10000)

-- `if value: fields.append((name, value))`
abbrev pub append_field : Text → Text → List (Text × Text) → List (Text × Text)
append_field name [] rest = rest
append_field name (c ∷ cs) rest = (name, c ∷ cs) ∷ rest

abbrev pub freq_value : Option ℕ → Text
freq_value none = []
freq_value (some freq) = if freq == 0 then [] else freq_text freq

-- A comment of spaces alone is a field with an empty value.
abbrev pub append_comment : Text → List (Text × Text) → List (Text × Text)
append_comment [] rest = rest
append_comment (c ∷ cs) rest = (codes "comment", one_line (c ∷ cs)) ∷ rest

unfoldable pub fields_of : Text → Qso → List (Text × Text)
fields_of station_call q =
    (codes "call", q.call)
    ∷ (codes "qso_date", date_text q.when)
    ∷ (codes "time_on", time_text q.when)
    ∷ (codes "mode", q.mode)
    ∷ append_field (codes "band") q.band (
        append_field (codes "freq") (freq_value q.freq_mhz) (
          append_field (codes "rst_sent") q.rst_sent (
            append_field (codes "rst_rcvd") q.rst_rcvd (
              append_field (codes "name") q.name (
                append_field (codes "qth") q.qth (
                  append_field (codes "gridsquare") q.gridsquare (
                    append_field (codes "country") q.country (
                      append_field (codes "station_callsign") station_call
                        (append_comment q.comment [])))))))))

unfoldable pub adif_field : Text × Text → Text
adif_field (name, value) = b'<' ∷ (name ++ b':' ∷ (decimal (length value) ++ b'>' ∷ value))

abbrev pub record_line : List (Text × Text) → Text
record_line fields = join (codes " ") (map adif_field fields) ++ codes " <EOR>"

abbrev pub newline : Text
newline = 10 ∷ []

abbrev pub header_lines : List Text
header_lines =
    codes "CW Station log export"
    ∷ adif_field (codes "adif_ver", codes "3.1.4")
    ∷ adif_field (codes "programid", codes "CW Station")
    ∷ codes "<EOH>"
    ∷ []
    ∷ []

unfoldable pub adif_export : List Qso → Text → Text
adif_export qsos station_call =
    join newline (header_lines ++ map (λ q. record_line (fields_of station_call q)) qsos) ++ newline
