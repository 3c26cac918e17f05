-- ===== src/Cw/Events.antt =====
-- apps/cw/engine/events.py: the events that every engine emits. `F` stands for the program's floats.
use cwstation.Prelude.{ℕ, Bool, List, Text}

pub data ElementKind : Type 0 where
  dit dah : ElementKind

pub record KeyRun (F : Type 0) : Type 0 where
  pub on : Bool
  pub t_start : F
  pub dur_ms : F

pub record ElementEvent (F : Type 0) : Type 0 where
  pub kind : ElementKind
  pub t_start : F
  pub dur_ms : F

pub record CharEvent (F : Type 0) : Type 0 where
  pub char : Text
  pub morse : Text
  pub t_start : F
  pub t_end : F
  pub wpm : F
  pub snr_db : F
  pub confidence : F

pub record DecodeResult (F : Type 0) : Type 0 where
  pub text : Text
  pub chars : List (CharEvent F)
  pub elements : List (ElementEvent F)
  pub key_runs : List (KeyRun F)
  pub envelope_t : List F
  pub envelope_mag : List F
  pub envelope_thr : List F
  pub sample_rate : ℕ
  pub tone_hz : F
  pub wpm_final : F
