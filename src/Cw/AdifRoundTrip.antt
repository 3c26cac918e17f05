-- ===== src/Cw/AdifRoundTrip.antt =====
-- What adif_export writes, parse_adif reads back (apps/cw/logbook.py).
use cwstation.Prelude.{
  ℕ, suc, ◌≡◌, refl, sym, ap, ◌∙◌, true, some, List, [], ◌∷◌, ◌++◌, append_assoc, append-nil, map,
  Text, codes, text_eq, if◌then◌else◌, decimal, digits_of, drop,
}
use cwstation.Cw.Logbook.{
  Qso, join, adif_field, freq_value, append_comment, fields_of, record_line, newline, header_lines,
  adif_export,
}
use cwstation.Cw.Adif.{
  is_eor, is_eoh, match_tag, push_record, parse_from, body_from, or_text, parse_adif,
}
use cwstation.Cw.AdifLines.{ranked, append_field-ranked, parse_from-fields}

-- The fields in the order in which they are written.
abbrev field_names : List Text
field_names =
    codes "call"
    ∷ codes "qso_date"
    ∷ codes "time_on"
    ∷ codes "mode"
    ∷ codes "band"
    ∷ codes "freq"
    ∷ codes "rst_sent"
    ∷ codes "rst_rcvd"
    ∷ codes "name"
    ∷ codes "qth"
    ∷ codes "gridsquare"
    ∷ codes "country"
    ∷ codes "station_callsign"
    ∷ codes "comment"
    ∷ []

abbrev index_of : Text → List Text → ℕ
index_of name [] = 0
index_of name (n ∷ ns) = if text_eq n name then 0 else suc (index_of name ns)

abbrev rank : Text → ℕ
rank name = index_of name field_names

append_comment-ranked : (comment : Text) → ranked rank 13 (append_comment comment []) ≡ true
append_comment-ranked [] = refl
append_comment-ranked (c ∷ cs) = refl

fields_of-ranked : (station_call : Text) (q : Qso) → ranked rank 0 (fields_of station_call q) ≡ true
unfolding fields_of
fields_of-ranked station_call q = append_field-ranked rank (codes "band") q.band _ refl (
    append_field-ranked rank (codes "freq") (freq_value q.freq_mhz) _ refl (
      append_field-ranked rank (codes "rst_sent") q.rst_sent _ refl (
        append_field-ranked rank (codes "rst_rcvd") q.rst_rcvd _ refl (
          append_field-ranked rank (codes "name") q.name _ refl (
            append_field-ranked rank (codes "qth") q.qth _ refl (
              append_field-ranked rank (codes "gridsquare") q.gridsquare _ refl (
                append_field-ranked rank (codes "country") q.country _ refl (
                  append_field-ranked rank (codes "station_callsign") station_call _ refl
                    (append_comment-ranked q.comment)))))))))

-- The end of a line ends the record.
parse_from-eor :
    (rest : Text) (current : List (Text × Text)) (records : List (List (Text × Text)))
    → parse_from (codes " <EOR>" ++ newline ++ rest) 0 current records
      ≡ parse_from rest 0 [] (push_record current records)
unfolding parse_from match_tag is_eor
parse_from-eor rest current records = refl

-- Every line with its newline.
abbrev lines : List Text → Text
lines [] = []
lines (l ∷ ls) = l ++ 10 ∷ lines ls

join-lines : (l : Text) (ls : List Text) → join newline (l ∷ ls) ++ newline ≡ lines (l ∷ ls)
unfolding join
join-lines l [] = refl
join-lines l (m ∷ ms) =
    append_assoc l (10 ∷ join newline (m ∷ ms)) newline ∙ ap (λ t. l ++ 10 ∷ t) (join-lines m ms)

abbrev record_lines : Text → List Qso → List Text
record_lines station_call qsos = map (λ q. record_line (fields_of station_call q)) qsos

-- The header goes as far as two newlines before the first record.
body_from-header :
    (ls : List Text) → body_from (lines (header_lines ++ ls)) 0 ≡ some (10 ∷ 10 ∷ lines ls)
unfolding body_from is_eoh adif_field decimal digits_of
body_from-header ls = refl

parse_from-newlines :
    (rest : Text) (records : List (List (Text × Text)))
    → parse_from (10 ∷ 10 ∷ rest) 0 [] records ≡ parse_from rest 0 [] records
unfolding parse_from match_tag is_eor
parse_from-newlines rest records = refl

parse_from-record :
    (station_call : Text) (q : Qso) (rest : Text) (records : List (List (Text × Text)))
    → parse_from (record_line (fields_of station_call q) ++ 10 ∷ rest) 0 [] records
      ≡ parse_from rest 0 [] (records ++ fields_of station_call q ∷ [])
unfolding fields_of
parse_from-record station_call q rest records =
    ap (λ t. parse_from t 0 [] records)
      (append_assoc (join (codes " ") (map adif_field (fields_of station_call q))) (codes " <EOR>")
        (10 ∷ rest))
    ∙ parse_from-fields rank 0 (fields_of station_call q) [] (codes " <EOR>" ++ 10 ∷ rest) records
        (fields_of-ranked station_call q) refl
    ∙ parse_from-eor rest (fields_of station_call q) records

parse_from-lines :
    (station_call : Text) (qsos : List Qso) (records : List (List (Text × Text)))
    → parse_from (lines (record_lines station_call qsos)) 0 [] records
      ≡ records ++ map (fields_of station_call) qsos
unfolding parse_from
parse_from-lines station_call [] records = sym (append-nil records)
parse_from-lines station_call (q ∷ qs) records =
    parse_from-record station_call q (lines (record_lines station_call qs)) records
    ∙ parse_from-lines station_call qs (records ++ fields_of station_call q ∷ [])
    ∙ append_assoc records (fields_of station_call q ∷ []) (map (fields_of station_call) qs)

-- A log that is exported and parsed again yields, for each contact in order, the fields that were
-- written, with their values unchanged whatever these contain: brackets, newlines or tags too.
pub parse_adif-adif_export :
    (qsos : List Qso) (station_call : Text)
    → parse_adif (adif_export qsos station_call) ≡ map (fields_of station_call) qsos
unfolding parse_adif adif_export
parse_adif-adif_export qsos station_call =
    let records : List Text = record_lines station_call qsos in
    ap (λ t. parse_from (or_text (body_from t 0) t) 0 [] [])
      (join-lines (codes "CW Station log export") (drop 1 header_lines ++ records))
    ∙ ap (λ o. parse_from (or_text o (lines (header_lines ++ records))) 0 [] [])
        (body_from-header records)
    ∙ parse_from-newlines (lines records) []
    ∙ parse_from-lines station_call qsos []
