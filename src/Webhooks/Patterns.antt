-- ===== src/Webhooks/Patterns.antt =====
-- The shape of event patterns (`_PATTERN_RE`, `validate_event_patterns` and `unmatched_patterns` of
-- apps/webhooks/services.py).
use cwstation.Prelude.{
  ℕ, Bool, true, false, not, ◌&&◌, ◌||◌, Option, none, some, List, [], ◌∷◌, Text, is_digit,
  is_upper, leb, ◌==◌, if◌then◌else◌, strip, any_where, filter_where,
}
use cwstation.Webhooks.Model.{Outside}
use cwstation.Webhooks.Guard.{is_empty}

-- `[A-Za-z0-9_*?\[\]!-]`
unfoldable pub is_token : ℕ → Bool
is_token c =
    is_upper c
    || (leb b'a' c && leb c b'z')
    || is_digit c
    || (c == b'_')
    || (c == b'*')
    || (c == b'?')
    || (c == b'[')
    || (c == b']')
    || (c == b'!')
    || (c == b'-')

-- `_PATTERN_RE.match`: whether a token has begun, and the rest. The `$` also stands before a newline
-- that ends the text.
unfoldable pub scan : Bool → Text → Bool
scan begun [] = begun
scan begun (c ∷ rest) =
    let inside = scan true rest in
    let next = scan false rest in
    if is_token c then inside else begun && (c == b'.' && next || c == 10 && is_empty rest)

unfoldable pub pattern_matches : Text → Bool
pattern_matches p = scan false p

-- A value of the list: a text, or some other JSON.
pub data PatternValue : Type 0 where
  text_value : Text → PatternValue
  other_value : PatternValue

-- What an error says.
pub data PatternError : Type 0 where
  not_a_list not_a_pattern malformed : PatternError

unfoldable pub pattern_errors : List PatternValue → List PatternError
pattern_errors [] = []
pattern_errors (other_value ∷ rest) = not_a_pattern ∷ pattern_errors rest
pattern_errors (text_value p ∷ rest) =
    let later = pattern_errors rest in
    if is_empty (strip p)
    then not_a_pattern ∷ later
    else if not (pattern_matches p)
    then malformed ∷ later
    else later

-- `none` is a value that is no list.
unfoldable pub validate_event_patterns : Option (List PatternValue) → List PatternError
validate_event_patterns none = not_a_list ∷ []
validate_event_patterns (some values) = pattern_errors values

unfoldable pub is_concrete : Text → Bool
is_concrete [] = true
is_concrete (c ∷ rest) = let tail = is_concrete rest in if c == b'*' then false else tail

module _ ⦃o : Outside⦄ where
  unfoldable pub unmatched : List Text → List PatternValue → List Text
  unmatched known [] = []
  unmatched known (other_value ∷ rest) = unmatched known rest
  unmatched known (text_value p ∷ rest) =
      let later = unmatched known rest in
      if pattern_matches p && not (any_where (λ event. o.fnmatch event p) known)
      then p ∷ later
      else later

  abbrev unmatched_of : List Text → List PatternValue → List Text
  unmatched_of [] values = []
  unmatched_of (e ∷ known) values = unmatched (e ∷ known) values

  -- The events are those of `available_events`.
  unfoldable pub unmatched_patterns : List Text → Option (List PatternValue) → List Text
  unmatched_patterns events none = []
  unmatched_patterns events (some values) = unmatched_of (filter_where is_concrete events) values
