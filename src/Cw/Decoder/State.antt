-- ===== src/Cw/Decoder/State.antt =====
-- apps/cw/engine/cw.py: CwConfig, the fields of CwDecoder, `__init__` and `reset`.
use cwstation.Prelude.{
  ℕ, Bool, true, false, Option, none, some, List, [], ◌∷◌, Text, codes, leb, ◌==◌, if◌then◌else◌,
}
use cwstation.Cw.Floats.{Floats}
use cwstation.Cw.Events.{ElementKind, dit, dah, CharEvent, DecodeResult}

-- The fields of CwConfig that the modelled methods read.
pub record CwConfig (F : Type 0) : Type 0 where
  pub tone_hz : F
  pub block_ms : F
  pub expected_wpm : Option F
  pub min_wpm : F
  pub max_wpm : F
  pub env_smooth : F
  pub peak_release : F
  pub floor_rise : F
  pub hysteresis : F
  pub debounce_ms : F
  pub boot_marks : ℕ
  pub squelch_db : F

-- A buffered key run: keyed, its start and its duration.
pub record BootRun (F : Type 0) : Type 0 where
  pub keyed : Bool
  pub t_start : F
  pub dur : F

pub record CwDecoder (F : Type 0) : Type 0 where
  pub fs : ℕ
  pub block : ℕ
  pub cfg : CwConfig F
  pub t_samples : ℕ
  pub env : Option F
  pub peak : Option F
  pub floor : Option F
  pub state : Bool
  pub cand : Bool
  pub run_start_s : F
  pub debounce_n : ℕ
  pub cand_count : ℕ
  pub dit_s : Option F
  pub boot_runs : List (BootRun F)
  pub boot_marks : List F
  pub cur : Text
  pub cur_start : F
  pub wpm : F
  pub snr : F
  pub flushed : Bool
  pub result : DecodeResult F

-- `s.endswith(" ")` and `s.rstrip()`; the only white space in a decoded text is the space.
unfoldable pub ends_with_space : Text → Bool
ends_with_space [] = false
ends_with_space (c ∷ []) = c == b' '
ends_with_space (c ∷ d ∷ rest) = ends_with_space (d ∷ rest)

unfoldable pub rstrip : Text → Text
rstrip [] = []
rstrip (c ∷ rest) =
    let tail = rstrip rest in
    elim tail [ [] ↦ if c == b' ' then [] else c ∷ [] | d ∷ t ↦ c ∷ d ∷ t ]

unfoldable pub kind_text : ElementKind → Text
kind_text dit = codes "."
kind_text dah = codes "-"

abbrev pub is_empty {ℓ} : {A : Type ℓ} → List A → Bool
is_empty [] = true
is_empty (_ ∷ _) = false

module _ ⦃fl : Floats⦄ where
  open fl use {
    F, lit, of_ℕ, add, sub, mul, div, lt, le, is_zero, round, round_int, log10, clip, minimum,
    median,
  }

  abbrev pub Emits : Type 0
  Emits = CwDecoder F × List (CharEvent F)

  -- The truth value of an optional float.
  abbrev pub truthy : Option F → Option F
  truthy none = none
  truthy (some x) = if is_zero x then none else some x

  unfoldable pub reset : ℕ → ℕ → CwConfig F → CwDecoder F
  reset fs block c = record {
    fs = fs;
    block = block;
    cfg = c;
    t_samples = 0;
    env = none;
    peak = none;
    floor = none;
    state = false;
    cand = false;
    run_start_s = lit 0 0;
    debounce_n = (let n = round_int (div c.debounce_ms c.block_ms) in if leb 1 n then n else 1);
    cand_count = 0;
    dit_s = elim (truthy c.expected_wpm) [ none ↦ none | some w ↦ some (div (lit 12 1) w) ];
    boot_runs = [];
    boot_marks = [];
    cur = [];
    cur_start = lit 0 0;
    wpm = elim (truthy c.expected_wpm) [ none ↦ lit 0 0 | some w ↦ w ];
    snr = lit 0 0;
    flushed = false;
    result = record {
      text = [];
      chars = [];
      elements = [];
      key_runs = [];
      envelope_t = [];
      envelope_mag = [];
      envelope_thr = [];
      sample_rate = fs;
      tone_hz = c.tone_hz;
      wpm_final = lit 0 0;
    };
  }

  -- CwDecoder(fs, config)
  unfoldable pub new : ℕ → CwConfig F → CwDecoder F
  new fs c =
      let n = round_int (mul (div c.block_ms (lit 1000 0)) (of_ℕ fs)) in
      reset fs (if leb 8 n then n else 8) c
