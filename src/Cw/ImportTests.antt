-- ===== src/Cw/ImportTests.antt =====
-- The theorem about imports at a concrete input.
use cwstation.Prelude.{
  ℕ, ◌+◌, ◌≡◌, refl, false, Option, none, [], Text, codes, is_space, lstrip, strip_end, strip, ◌||◌,
  any_where,
}
use cwstation.Cw.Logbook.{band_for_freq, When}
use cwstation.Cw.Adif.{parse_adif, parse_from, body_from, match_tag, is_eor, is_eoh}
use cwstation.Cw.Import.{
  Import, read_int, datetime, parse_adif_when, import_record, import_records, import_adif,
}
use cwstation.Cw.Contacts.{contacts_of, names, import_adif-contacts_of}
use cwstation.Cw.Reimport.{import_adif-import_adif}

-- One contact, twice in the file, and a record without a date.
abbrev a_file : Text
a_file =
    codes
      "<CALL:4>w1aw<QSO_DATE:8:D>20240601<TIME_ON:4>0905<eor><call:4>W1AW<qso_date:8>20240601<time_on:6>090530<EOR><call:5>K1ABC<eor>"

abbrev no_freq : Text → Option ℕ
no_freq text = none

abbrev once_imported : Import
once_imported = import_adif no_freq a_file []

abbrev twice_imported : Import
twice_imported = import_adif no_freq a_file once_imported.log

program : Unit {0}
unfolding import_adif import_records import_record parse_adif parse_from body_from match_tag is_eor
    is_eoh read_int datetime parse_adif_when is_space lstrip strip_end strip band_for_freq
program = tt

one_created : once_imported.created ≡ 1
unfolding program
one_created = refl

one_error : once_imported.errors ≡ 1
unfolding program
one_error = refl

not_ended : once_imported.raised ≡ false
unfolding program
not_ended = refl

import_adif-import_adif_example :
    (twice_imported.log ≡ once_imported.log)
    × (twice_imported.created ≡ 0)
    × (twice_imported.duplicates ≡ once_imported.created + once_imported.duplicates)
    × (twice_imported.errors ≡ once_imported.errors)
import_adif-import_adif_example =
    import_adif-import_adif no_freq a_file [] once_imported twice_imported refl not_ended refl

abbrev a_morning : When
a_morning = record { year = 2024; month = 6; day = 1; hour = 9; minute = 5; second = 17 }

import_adif-contacts_of_example : contacts_of once_imported.log (codes "W1AW") a_morning ≡ (
    contacts_of [] (codes "W1AW") a_morning
    || any_where (λ fields. names fields (codes "W1AW") a_morning) (parse_adif a_file))
import_adif-contacts_of_example =
    import_adif-contacts_of no_freq a_file [] (codes "W1AW") a_morning not_ended
