-- ===== src/Cw/Bridge.antt =====
-- apps/cw/engine/bridge.py: `CwLogBridge`, which turns decoded characters into a QSO draft.
-- `str.strip` is modelled on the ASCII white space, `[A-Z]` and `\d` on ASCII characters. `on_char`
-- returns the new bridge and the drafts that it handed to `on_qso_ready`, if any.
pub mod Ready
pub mod Calls
mod Tests
use cwstation.Prelude.{
  ℕ, zero, suc, ◌+◌, Bool, true, false, not, ◌&&◌, ◌||◌, Option, none, some, List, [], ◌∷◌, ◌++◌,
  Text, codes, text_eq, length, leb, ltb, is_upper, is_digit, ◌==◌, if◌then◌else◌, strip,
}
use cwstation.Cw.Events.{CharEvent}

pub record QsoDraft : Type 0 where
  pub raw : Text
  pub callsigns : List Text
  pub rst : List Text

pub record CwLogBridge : Type 0 where
  pub draft : QsoDraft
  pub word : Text
  pub space_run : ℕ
  pub gap_close : ℕ
  pub prev_word : Text

pub new_bridge : ℕ → CwLogBridge
new_bridge gap_close_words = record {
  draft = record { raw = []; callsigns = []; rst = [] };
  word = [];
  space_run = 0;
  gap_close = gap_close_words;
  prev_word = [];
}

-- `CALLSIGN_RE.fullmatch`: one or two letters, a digit, one to four letters.
pub all_upper : Text → Bool
all_upper [] = true
all_upper (c ∷ rest) = is_upper c && all_upper rest

pub is_suffix : Text → Bool
unfolding all_upper
is_suffix s = leb 1 (length s) && leb (length s) 4 && all_upper s

pub is_callsign : Text → Bool
unfolding is_suffix
is_callsign (a ∷ b ∷ c ∷ rest) =
    is_upper a && (is_digit b && is_suffix (c ∷ rest) || is_upper b && is_digit c && is_suffix rest)
is_callsign _ = false

-- `RST_RE.fullmatch`
pub is_rst : Text → Bool
is_rst (a ∷ b ∷ c ∷ []) =
    leb b'1' a && leb a b'5' && leb b'1' b && leb b b'9' && leb b'1' c && leb c b'9'
is_rst _ = false

pub mem_text : Text → List Text → Bool
mem_text w [] = false
mem_text w (x ∷ xs) = text_eq x w || mem_text w xs

pub mem_code : ℕ → Text → Bool
mem_code c [] = false
mem_code c (x ∷ xs) = x == c || mem_code c xs

abbrev pub single_letter_prefixes : Text
single_letter_prefixes = codes "BFGIKMNRW"

abbrev pub min_uncorroborated_len : ℕ
min_uncorroborated_len = 4

-- The text before its first digit.
pub prefix_of : Text → Text
prefix_of [] = []
prefix_of (c ∷ rest) = let tail = prefix_of rest in if is_digit c then [] else c ∷ tail

-- `len(prefix) > 1 or prefix in SINGLE_LETTER_PREFIXES`
pub is_allocated : Text → Bool
is_allocated [] = false
is_allocated (c ∷ []) = mem_code c single_letter_prefixes
is_allocated _ = true

pub has_plausible_prefix : Text → Bool
unfolding prefix_of is_allocated mem_code
has_plausible_prefix call = is_allocated (prefix_of call)

-- The admission rule of `_flush_word`.
pub admits : Text → Text → List Text → Bool
admits prev w callsigns =
    let corroborated = text_eq prev (codes "DE") || mem_text w callsigns in
    has_plausible_prefix w && (leb min_uncorroborated_len (length w) || corroborated)

-- What `_flush_word` does with a word that is not empty.
pub note_word : Text → CwLogBridge → CwLogBridge
note_word w b =
    if is_callsign w
    then if admits b.prev_word w b.draft.callsigns
      then record b {
        prev_word = w;
        draft = record b.draft { callsigns = b.draft.callsigns ++ w ∷ [] };
      }
      else record b { prev_word = w }
    else if is_rst w
    then record b { prev_word = w; draft = record b.draft { rst = b.draft.rst ++ w ∷ [] } }
    else record b { prev_word = w }

-- `if not w: return`
pub note_stripped : Text → CwLogBridge → CwLogBridge
note_stripped [] b = b
note_stripped (c ∷ rest) b = note_word (c ∷ rest) b

pub flush_word : CwLogBridge → CwLogBridge
flush_word b = note_stripped (strip b.word) (record b { word = [] })

-- `on_char` behind `self.draft.raw += ev.char`, for a word gap.
pub on_gap : CwLogBridge → CwLogBridge × List QsoDraft
on_gap b0 =
    let b = flush_word b0 in
    let run = b.space_run + 1 in
    let ready = leb b.gap_close run && not (text_eq (strip b.draft.raw) []) in
    (record b { space_run = run }, if ready then b.draft ∷ [] else [])

pub on_char : Text → CwLogBridge → CwLogBridge × List QsoDraft
on_char char b0 =
    let b = record b0 { draft = record b0.draft { raw = b0.draft.raw ++ char } } in
    if text_eq char (codes " ")
    then on_gap b
    else (record b { space_run = 0; word = b.word ++ char }, [])

-- The bridge as the manager's subscriber: every event in turn.
pub on_events : {F : Type 0} → List (CharEvent F) → CwLogBridge → CwLogBridge × List QsoDraft
on_events [] b = (b, [])
on_events (ev ∷ evs) b =
    let (b1, ready1) = on_char ev.char b in
    let (b2, ready2) = on_events evs b1 in (b2, ready1 ++ ready2)
