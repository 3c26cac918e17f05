-- ===== src/Cw/Rig.antt =====
-- apps/cw/rigctl.py: the client of Hamlib's rigctld. The TCP connection, with the lines that
-- `_readline` takes from it, is the record `Link`: nothing is assumed of it. Texts are ASCII.
use cwstation.Prelude.{
  ℕ, zero, suc, ◌+◌, Bool, true, false, Option, none, some, List, [], ◌∷◌, ◌++◌, Text, codes,
  text_eq, is_space, strip, if◌then◌else◌,
}

-- A value, a RigError, or another exception.
pub data RigReply {ℓ} (A : Type ℓ) : Type ℓ where
  value : A → RigReply A
  rig_error : RigReply A
  other_error : RigReply A

-- What happens on the way: a command that goes out, one whose write fails (after none, some or all of
-- its bytes), the end of a reply that is no error, or the audio that is played.
pub data Event : Type 0 where
  sent : Text → Event
  lost : Text → Event
  taken : Event
  played : Event

-- How the other side behaves, after what has happened so far.
pub record Link : Type 0 where
  -- whether `socket.create_connection` succeeds, and whether `sendall` does
  pub connects : List Event → Bool
  pub writes : List Event → Text → Bool
  -- `_readline`, the k-th line behind a command; `none` where it raises
  pub reads : List Event → ℕ → Option Text

pub record RigctldClient : Type 0 where
  pub connected : Bool
  pub trace : List Event

abbrev pub new_client : RigctldClient
new_client = record { connected = false; trace = [] }

abbrev pub log_event : Event → RigctldClient → RigctldClient
log_event e c = record c { trace = c.trace ++ e ∷ [] }

-- `line.split()[-1]`: the word so far, and whether a space has ended it.
abbrev last_word_from : Text → Bool → Text → Text
last_word_from word ended [] = word
last_word_from word ended (c ∷ rest) =
    if is_space c
    then last_word_from word true rest
    else if ended
    then last_word_from (c ∷ []) false rest
    else last_word_from (word ++ c ∷ []) false rest

unfoldable pub last_word : Text → Text
last_word line = last_word_from [] true line

unfoldable pub is_report : Text → Bool
is_report (a ∷ b ∷ c ∷ d ∷ rest) = text_eq (a ∷ b ∷ c ∷ d ∷ []) (codes "RPRT")
is_report _ = false

-- A projection of a list's head: `none` is the IndexError.
abbrev pub first_line : RigReply (List Text) → RigReply Text
first_line (value []) = other_error
first_line (value (line ∷ lines)) = value line
first_line rig_error = rig_error
first_line other_error = other_error

abbrev pub no_value : RigReply (List Text) → RigReply (Unit {0})
no_value (value _) = value tt
no_value rig_error = rig_error
no_value other_error = other_error

module _ ⦃link : Link⦄ where
  unfoldable pub connect : RigctldClient → RigReply (Unit {0}) × RigctldClient
  connect c =
      if link.connects c.trace then (value tt, record c { connected = true }) else (rig_error, c)

  abbrev pub close : RigctldClient → RigctldClient
  close c = record c { connected = false }

  -- The loop over the lines of a reply.
  unfoldable pub read_lines : ℕ → ℕ → List Text → RigctldClient → RigReply (List Text)
  read_lines zero k lines c = value lines
  read_lines (suc n) k lines c = elim (link.reads c.trace k) [
    | none ↦ rig_error
    | some line ↦
        let rest = read_lines n (k + 1) (lines ++ line ∷ []) c in
        if is_report line
        then if text_eq (last_word line) (codes "0") then value lines else rig_error
        else rest
  ]

  -- A reply that is no error is noted.
  abbrev pub heard_back :
      RigReply (List Text) → RigctldClient → RigReply (List Text) × RigctldClient
  heard_back (value lines) c = (value lines, log_event taken c)
  heard_back rig_error c = (rig_error, c)
  heard_back other_error c = (other_error, c)

  abbrev pub send_command : Text → ℕ → RigctldClient → RigReply (List Text) × RigctldClient
  send_command command reply_lines c =
      let after = log_event (sent command) c in
      if link.writes c.trace command
      then heard_back (read_lines reply_lines 0 [] after) after
      else (rig_error, log_event (lost command) c)

  abbrev pub send_connected :
      Text → ℕ → RigReply (Unit {0}) × RigctldClient → RigReply (List Text) × RigctldClient
  send_connected command reply_lines (value _, c) = send_command command reply_lines c
  send_connected command reply_lines (rig_error, c) = (rig_error, c)
  send_connected command reply_lines (other_error, c) = (other_error, c)

  -- `_request`
  unfoldable pub request : Text → ℕ → RigctldClient → RigReply (List Text) × RigctldClient
  request command reply_lines c =
      if c.connected
      then send_command command reply_lines c
      else send_connected command reply_lines (connect c)

  abbrev pub ptt_of : RigReply Text → RigReply Bool
  ptt_of (value line) = value (text_eq (strip line) (codes "1"))
  ptt_of rig_error = rig_error
  ptt_of other_error = other_error

  unfoldable pub get_ptt : RigctldClient → RigReply Bool × RigctldClient
  get_ptt c = let r = request (codes "t") 1 c in (ptt_of (first_line r.0), r.1)

  unfoldable pub set_ptt : Bool → RigctldClient → RigReply (Unit {0}) × RigctldClient
  set_ptt on c = let r = request (codes (if on then "T 1" else "T 0")) 1 c in (no_value r.0, r.1)
