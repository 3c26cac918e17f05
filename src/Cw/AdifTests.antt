-- ===== src/Cw/AdifTests.antt =====
-- The theorem about ADIF logs at a concrete input.
use cwstation.Prelude.{◌≡◌, refl, some, [], ◌∷◌, map, codes, decimal, digits_of, padded}
use cwstation.Cw.Logbook.{
  Qso, band_for_freq, mode_for_session, fields_of, adif_export, freq_text, time_text,
}
use cwstation.Cw.Adif.{parse_adif}
use cwstation.Cw.AdifRoundTrip.{parse_adif-adif_export}

-- A contact whose comment looks like the end of a record.
abbrev a_qso : Qso
a_qso = record {
  call = codes "W1AW";
  when = record { year = 2024; month = 6; day = 1; hour = 9; minute = 5; second = 0 };
  freq_mhz = some 140600;
  band = codes "20m";
  mode = codes "CW";
  rst_sent = codes "599";
  rst_rcvd = [];
  name = [];
  qth = [];
  gridsquare = [];
  country = [];
  comment = codes " <eor> 73";
}

twenty_metres : band_for_freq (some 140600) ≡ codes "20m"
unfolding band_for_freq
twenty_metres = refl

bpsk : mode_for_session (some (codes "fldigi:bpsk31")) ≡ codes "PSK31"
unfolding mode_for_session
bpsk = refl

mhz : freq_text 140600 ≡ codes "14.0600"
unfolding freq_text decimal digits_of padded
mhz = refl

morning : time_text a_qso.when ≡ codes "090500"
unfolding time_text decimal digits_of padded
morning = refl

parse_adif-adif_export_example :
    parse_adif (adif_export (a_qso ∷ a_qso ∷ []) (codes "K1ABC"))
    ≡ map (fields_of (codes "K1ABC")) (a_qso ∷ a_qso ∷ [])
parse_adif-adif_export_example = parse_adif-adif_export (a_qso ∷ a_qso ∷ []) (codes "K1ABC")
