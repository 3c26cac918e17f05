-- ===== src/Cw/Unkeys.antt =====
-- What a transmission leaves behind on the rig and in the process (apps/cw/transmit.py).
use cwstation.Prelude.{
  ℕ, ◌≡◌, ◌≢◌, ◌⊎◌, inl, inr, refl, ap, Bool, true, false, some, List, [], ◌∷◌, ◌++◌, Text, codes,
  text_eq, Bool-cases, if◌then◌else◌, all_where,
}
use cwstation.Cw.Rig.{
  no_value, first_line, ptt_of, RigReply, value, rig_error, other_error, Event, sent, lost, taken,
  played, Link, heard_back, RigctldClient, connect, request, get_ptt, set_ptt,
}
use cwstation.Cw.Transmit.{
  CwSession, CwRig, no_error, TxState, key_and_play, keyed_with, key_with, play_out, run,
  transmit_session, error_of, finally_of,
}

abbrev key_on : Text
key_on = codes "T 1"

abbrev key_off : Text
key_off = codes "T 0"

-- The PTT was asked for, and there was an answer.
abbrev pub asked : List Event
asked = sent (codes "t") ∷ taken ∷ []

-- Then the command that puts the PTT on was answered without an error, and the audio was played.
abbrev pub loud : List Event
loud = asked ++ sent key_on ∷ taken ∷ played ∷ []

-- And then the command that takes the PTT off was answered without an error.
abbrev pub whole_trace : List Event
whole_trace = loud ++ sent key_off ∷ taken ∷ []

-- Neither a command that puts the PTT on or off, nor audio.
abbrev pub is_question : Event → Bool
is_question (sent command) = text_eq command (codes "t")
is_question (lost command) = text_eq command (codes "t")
is_question taken = true
is_question played = false

-- A command behind these events went out and no good answer came, or its write failed.
abbrev pub Unconfirmed : List Event → Text → List Event → Type 0
Unconfirmed before command trace =
    (trace ≡ before ++ sent command ∷ []) ⊎ (trace ≡ before ++ lost command ∷ [])

-- Where a transmission can fail: it ends without any command to the PTT; it ends with the command that
-- puts it on, unconfirmed; or it ends behind the audio with the command that takes it off, unconfirmed.
abbrev pub Failed : List Event → Type 0
Failed trace =
    (all_where is_question trace ≡ true)
    ⊎ (Unconfirmed asked key_on trace ⊎ Unconfirmed loud key_off trace)

abbrev at : List Event → RigctldClient
at trace = record { connected = true; trace = trace }

abbrev fails : {A : Type 0} → RigReply A → Bool
fails (value _) = false
fails rig_error = true
fails other_error = true

module _ ⦃link : Link⦄ where
  -- How an exchange ends: with a good answer, or with an error.
  Exchanged : {A : Type 0} → Text → List Event → RigReply A × RigctldClient → Type 0
  Exchanged command trace r =
      ((fails r.0 ≡ false) × (r.1 ≡ at ((trace ++ sent command ∷ []) ++ taken ∷ [])))
      ⊎ ((fails r.0 ≡ true)
          × ((r.1 ≡ at (trace ++ sent command ∷ [])) ⊎ (r.1 ≡ at (trace ++ lost command ∷ []))))

  heard_back-Exchanged :
      (command : Text) (trace : List Event) (r : RigReply (List Text))
      → Exchanged command trace (heard_back r (at (trace ++ sent command ∷ [])))
  unfolding Exchanged
  heard_back-Exchanged command trace (value lines) = inl (refl, refl)
  heard_back-Exchanged command trace rig_error = inr (refl, inl refl)
  heard_back-Exchanged command trace other_error = inr (refl, inl refl)

  request-Exchanged :
      (command : Text) (n : ℕ) (trace : List Event)
      → Exchanged command trace (request command n (at trace))
  unfolding request
  request-Exchanged command n trace = elim (Bool-cases (link.writes trace command)) [
    | inl e ↦ rw e (heard_back-Exchanged command trace _)
    | inr e ↦ rw e (unfold Exchanged in inr (refl, inr refl))
  ]

  no_value-Exchanged :
      (command : Text) (trace : List Event) (r : RigReply (List Text) × RigctldClient)
      → Exchanged command trace r
      → Exchanged command trace (no_value r.0, r.1)
  unfolding Exchanged
  no_value-Exchanged command trace (value lines, c) h = h
  no_value-Exchanged command trace (rig_error, c) h = h
  no_value-Exchanged command trace (other_error, c) h = h

  set_ptt-Exchanged :
      (on : Bool) (trace : List Event)
      → Exchanged (if on then key_on else key_off) trace (set_ptt on (at trace))
  unfolding set_ptt
  set_ptt-Exchanged true trace =
      no_value-Exchanged key_on trace _ (request-Exchanged key_on 1 trace)
  set_ptt-Exchanged false trace =
      no_value-Exchanged key_off trace _ (request-Exchanged key_off 1 trace)

  -- How the body of the transmission ends.
  Ends : RigReply (Unit {0}) × RigctldClient → Type 0
  Ends r = (r.1.trace ≡ whole_trace) ⊎ ((error_of r.0 no_error ≢ no_error) × Failed r.1.trace)

  finally_of-Ends :
      (heard : RigReply (Unit {0})) (r : RigReply (Unit {0}) × RigctldClient)
      → Exchanged key_off loud r
      → Ends (finally_of heard r)
  unfolding Ends Exchanged
  finally_of-Ends heard (value _, c) (inl (ok, e)) = inl (ap (λ c. c.trace) e)
  finally_of-Ends heard (value _, c) (inr (bad, e)) = cc
  finally_of-Ends heard (rig_error, c) (inl (ok, e)) = cc
  finally_of-Ends heard (rig_error, c) (inr (bad, inl e)) =
      inr (λ h. cc, inr (inr (inl (ap (λ c. c.trace) e))))
  finally_of-Ends heard (rig_error, c) (inr (bad, inr e)) =
      inr (λ h. cc, inr (inr (inr (ap (λ c. c.trace) e))))
  finally_of-Ends heard (other_error, c) (inl (ok, e)) = cc
  finally_of-Ends heard (other_error, c) (inr (bad, inl e)) =
      inr (λ h. cc, inr (inr (inl (ap (λ c. c.trace) e))))
  finally_of-Ends heard (other_error, c) (inr (bad, inr e)) =
      inr (λ h. cc, inr (inr (inr (ap (λ c. c.trace) e))))

  keyed_with-Ends :
      (rig : CwRig) (heard : RigReply (Unit {0})) (r : RigReply (Unit {0}) × RigctldClient)
      → rig.use_ptt ≡ true
      → Exchanged key_on asked r
      → Ends (keyed_with rig heard r)
  unfolding Exchanged play_out
  keyed_with-Ends rig heard (value _, c) ptt (inl (ok, e)) =
      rw (ptt, e) (finally_of-Ends heard (set_ptt false (at loud)) (set_ptt-Exchanged false loud))
  keyed_with-Ends rig heard (value _, c) ptt (inr (bad, e)) = cc
  keyed_with-Ends rig heard (rig_error, c) ptt (inl (ok, e)) = cc
  keyed_with-Ends rig heard (rig_error, c) ptt (inr (bad, inl e)) =
      unfold Ends in inr (λ h. cc, inr (inl (inl (ap (λ c. c.trace) e))))
  keyed_with-Ends rig heard (rig_error, c) ptt (inr (bad, inr e)) =
      unfold Ends in inr (λ h. cc, inr (inl (inr (ap (λ c. c.trace) e))))
  keyed_with-Ends rig heard (other_error, c) ptt (inl (ok, e)) = cc
  keyed_with-Ends rig heard (other_error, c) ptt (inr (bad, inl e)) =
      unfold Ends in inr (λ h. cc, inr (inl (inl (ap (λ c. c.trace) e))))
  keyed_with-Ends rig heard (other_error, c) ptt (inr (bad, inr e)) =
      unfold Ends in inr (λ h. cc, inr (inl (inr (ap (λ c. c.trace) e))))

  -- A question leaves only questions behind, and a value only for a reply that was taken.
  Questioned : RigReply Bool × RigctldClient → Type 0
  Questioned r = (all_where is_question r.1.trace ≡ true) × (fails r.0 ≡ false → r.1 ≡ at asked)

  questioned :
      (r : RigReply (List Text) × RigctldClient)
      → Exchanged (codes "t") [] r
      → Questioned (ptt_of (first_line r.0), r.1)
  unfolding Exchanged Questioned
  questioned (value lines, c) (inl (ok, e)) = (ap (λ c. all_where is_question c.trace) e, λ h. e)
  questioned (value lines, c) (inr (bad, e)) = cc
  questioned (rig_error, c) (inl (ok, e)) = cc
  questioned (rig_error, c) (inr (bad, inl e)) =
      (ap (λ c. all_where is_question c.trace) e, λ h. cc)
  questioned (rig_error, c) (inr (bad, inr e)) =
      (ap (λ c. all_where is_question c.trace) e, λ h. cc)
  questioned (other_error, c) (inl (ok, e)) = cc
  questioned (other_error, c) (inr (bad, inl e)) =
      (ap (λ c. all_where is_question c.trace) e, λ h. cc)
  questioned (other_error, c) (inr (bad, inr e)) =
      (ap (λ c. all_where is_question c.trace) e, λ h. cc)

  get_ptt-Questioned : Questioned (get_ptt (at []))
  unfolding get_ptt
  get_ptt-Questioned = questioned _ (request-Exchanged (codes "t") 1 [])

  key_with-Ends :
      (rig : CwRig) (heard : RigReply (Unit {0})) (r : RigReply Bool × RigctldClient)
      → rig.use_ptt ≡ true
      → Questioned r
      → Ends (key_with rig heard r)
  unfolding Questioned
  key_with-Ends rig heard (value true, c) ptt (q, e) = unfold Ends in inr (λ h. cc, inl q)
  key_with-Ends rig heard (value false, c) ptt (q, e) =
      keyed_with-Ends rig heard (set_ptt true c) ptt (rw (e refl) (set_ptt-Exchanged true asked))
  key_with-Ends rig heard (rig_error, c) ptt (q, e) = unfold Ends in inr (λ h. cc, inl q)
  key_with-Ends rig heard (other_error, c) ptt (q, e) = unfold Ends in inr (λ h. cc, inl q)

  key_and_play-Ends :
      (rig : CwRig) (heard : RigReply (Unit {0}))
      → rig.use_ptt ≡ true
      → Ends (key_and_play rig heard)
  unfolding key_and_play connect
  key_and_play-Ends rig heard ptt = elim (Bool-cases (link.connects [])) [
    | inl e ↦ simp (e, ptt) (key_with-Ends rig heard (get_ptt (at [])) ptt get_ptt-Questioned)
    | inr e ↦ rw e (unfold Ends in inr (λ h. cc, inl refl))
  ]

  -- A blocking call that finds the process free, for a session whose audio can be made, on a rig with PTT,
  -- leaves it free: the lock is released, and nothing counts as being transmitted. And whatever the rig and
  -- the player do, either the PTT was asked for, put on, the audio played, and the PTT taken off, each command
  -- answered without an error; or the state shows an error, and the exchange ended in one of three places:
  -- before any command to the PTT, with no audio; at the command that puts the PTT on, with no good answer, so
  -- that the rig may be keyed, with no audio and no command that takes it off; or behind the audio at the
  -- command that takes the PTT off, with no good answer.
  pub transmit_session-unkeys :
      (rig : CwRig) (session : CwSession) (heard : RigReply (Unit {0})) (s : TxState) (sound : ℕ)
      → rig.use_ptt ≡ true
      → session.has_audio ≡ true
      → session.audio ≡ some sound
      → s.locked ≡ false
      → let after : TxState × List Event = (transmit_session true rig session heard s).1 in
        (after.0.locked ≡ false)
        × (after.0.transmitting ≡ false)
        × ((after.1 ≡ whole_trace) ⊎ ((after.0.error ≢ no_error) × Failed after.1))
  unfolding transmit_session run Ends
  transmit_session-unkeys rig session heard s sound ptt has made idle =
      simp (has, made, idle) (refl, refl, key_and_play-Ends rig heard ptt)
