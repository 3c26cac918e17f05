-- ===== src/Cw/Morse/Table.antt =====
-- The tables of apps/cw/engine/morse.py.
use cwstation.Prelude.{String, List, [], ◌∷◌, Text, codes}

abbrev pub unknown_char : Text
unknown_char = 0xfffd ∷ []

abbrev entry : String → String → Text × Text
entry ch code = (codes ch, codes code)

unfoldable pub char_to_morse : List (Text × Text)
char_to_morse =
    entry "A" ".-"
    ∷ entry "B" "-..."
    ∷ entry "C" "-.-."
    ∷ entry "D" "-.."
    ∷ entry "E" "."
    ∷ entry "F" "..-."
    ∷ entry "G" "--."
    ∷ entry "H" "...."
    ∷ entry "I" ".."
    ∷ entry "J" ".---"
    ∷ entry "K" "-.-"
    ∷ entry "L" ".-.."
    ∷ entry "M" "--"
    ∷ entry "N" "-."
    ∷ entry "O" "---"
    ∷ entry "P" ".--."
    ∷ entry "Q" "--.-"
    ∷ entry "R" ".-."
    ∷ entry "S" "..."
    ∷ entry "T" "-"
    ∷ entry "U" "..-"
    ∷ entry "V" "...-"
    ∷ entry "W" ".--"
    ∷ entry "X" "-..-"
    ∷ entry "Y" "-.--"
    ∷ entry "Z" "--.."
    ∷ entry "0" "-----"
    ∷ entry "1" ".----"
    ∷ entry "2" "..---"
    ∷ entry "3" "...--"
    ∷ entry "4" "....-"
    ∷ entry "5" "....."
    ∷ entry "6" "-...."
    ∷ entry "7" "--..."
    ∷ entry "8" "---.."
    ∷ entry "9" "----."
    ∷ entry "." ".-.-.-"
    ∷ entry "," "--..--"
    ∷ entry "?" "..--.."
    ∷ entry "'" ".----."
    ∷ entry "!" "-.-.--"
    ∷ entry "/" "-..-."
    ∷ entry "(" "-.--."
    ∷ entry ")" "-.--.-"
    ∷ entry "&" ".-..."
    ∷ entry ":" "---..."
    ∷ entry ";" "-.-.-."
    ∷ entry "=" "-...-"
    ∷ entry "+" ".-.-."
    ∷ entry "-" "-....-"
    ∷ entry "_" "..--.-"
    ∷ entry "\"" ".-..-."
    ∷ entry "@" ".--.-."
    ∷ entry "<AR>" ".-.-."
    ∷ entry "<SK>" "...-.-"
    ∷ entry "<BT>" "-...-"
    ∷ entry "<KN>" "-.--."
    ∷ entry "<BK>" "-...-.-"
    ∷ entry "<AS>" ".-..."
    ∷ entry "<CT>" "-.-.-"
    ∷ entry "<KA>" "-.-.-"
    ∷ []
