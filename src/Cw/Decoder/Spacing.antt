-- ===== src/Cw/Decoder/Spacing.antt =====
-- Texts with single spaces between words, and the events that such a text is the copy of.
use cwstation.Prelude.{
  ◌≡◌, refl, Bool, true, false, ◌&&◌, not, List, [], ◌∷◌, ◌++◌, append_assoc, Text, codes, ◌==◌,
  arith,
}
use cwstation.Cw.Events.{CharEvent}
use cwstation.Cw.Morse.Spaces.{no_space}
use cwstation.Cw.Decoder.State.{ends_with_space, is_empty}

-- No space stands at the head, where `gap` says so, or behind another space.
abbrev pub single_from : Bool → Text → Bool
single_from gap [] = true
single_from gap (c ∷ rest) =
    let tail = single_from (c == b' ') rest in not (gap && c == b' ') && tail

abbrev pub single_spaced : Text → Bool
single_spaced = single_from true

-- Whether a text that follows a gap, or not, ends in one.
pub ends_gap : Bool → Text → Bool
ends_gap gap [] = gap
ends_gap gap (c ∷ rest) = ends_gap (c == b' ') rest

pub single_from-append :
    (gap : Bool) (xs ys : Text)
    → single_from gap (xs ++ ys) ≡ (single_from gap xs && single_from (ends_gap gap xs) ys)
unfolding ends_gap
single_from-append gap [] ys = refl
single_from-append gap (c ∷ xs) ys = ground (arith, single_from-append (c == b' ') xs ys)

single_from-no_space : (gap : Bool) (xs : Text) → no_space xs ≡ true → single_from gap xs ≡ true
single_from-no_space gap [] h = refl
single_from-no_space gap (c ∷ xs) h = ground (arith, single_from-no_space (c == b' ') xs)

ends_gap-eq : (gap : Bool) (xs : Text) → is_empty xs ≡ false → ends_gap gap xs ≡ ends_with_space xs
unfolding ends_gap ends_with_space
ends_gap-eq gap [] h = cc
ends_gap-eq gap (c ∷ []) h = refl
ends_gap-eq gap (c ∷ d ∷ rest) h = ends_gap-eq (c == b' ') (d ∷ rest) refl

pub single_spaced-append_word :
    (t ch : Text) → no_space ch ≡ true → single_spaced t ≡ true → single_spaced (t ++ ch) ≡ true
single_spaced-append_word t ch plain h =
    rw single_from-append (ground (arith, h, single_from-no_space (ends_gap true t) ch plain))

pub single_spaced-append_gap :
    (t : Text)
    → is_empty t ≡ false
    → ends_with_space t ≡ false
    → single_spaced t ≡ true
    → single_spaced (t ++ codes " ") ≡ true
single_spaced-append_gap t some_text no_gap h =
    rw single_from-append (ground (arith, h, ends_gap-eq true t some_text))

-- The text that a list of events adds up to.
abbrev pub copy : {F : Type 0} → List (CharEvent F) → Text
copy [] = []
copy (ev ∷ evs) = ev.char ++ copy evs

pub copy-append : {F : Type 0} (xs ys : List (CharEvent F)) → copy (xs ++ ys) ≡ copy xs ++ copy ys
copy-append [] ys = refl
copy-append (x ∷ xs) ys = simp (copy-append xs ys, append_assoc)
