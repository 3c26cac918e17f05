-- ===== src/Cw/Decoder/Finish.antt =====
-- The end of the stream: what `flush` returns, drops and leaves.
use cwstation.Prelude.{
  ◌≡◌, refl, sym, ap, ◌∙◌, true, false, Option, none, some, List, [], ◌∷◌, ◌++◌, append-nil, Text,
  ◌==◌, if◌then◌else◌, arith, Bool-cases, inl, inr,
}
use cwstation.Cw.Floats.{Floats}
use cwstation.Cw.Events.{CharEvent}
use cwstation.Cw.Decoder.State.{CwDecoder, ends_with_space, rstrip, is_empty}
use cwstation.Cw.Decoder.Elements.{flush_char}
use cwstation.Cw.Decoder.Stream.{
  on_mark_end, close_mark, flush_boot_at, flush_boot, flush, flush_open,
}
use cwstation.Cw.Decoder.Growth.{
  Emitted, finish_boot-Emitted, flush_char-Emitted, on_mark_end-Emitted, Emitted-same, Emitted-seq,
}

ends_with_space-rstrip : (t : Text) → ends_with_space (rstrip t) ≡ false
unfolding ends_with_space rstrip
ends_with_space-rstrip [] = refl
ends_with_space-rstrip (c ∷ rest) = go (rstrip rest) (ends_with_space-rstrip rest)
  where
    go :
        (t : Text)
        → ends_with_space t ≡ false
        → ends_with_space (elim t [ [] ↦ if c == b' ' then [] else c ∷ [] | d ∷ u ↦ c ∷ d ∷ u ])
          ≡ false
    go [] h = ground arith
    go (d ∷ u) h = h

module _ ⦃fl : Floats⦄ where
  open fl use {F, of_ℕ, div, sub}

  flush_boot_at-Emitted : (o : Option F) (d : CwDecoder F) → Emitted d (flush_boot_at o d)
  unfolding flush_boot_at
  flush_boot_at-Emitted none d = elim (Bool-cases (is_empty d.boot_marks)) [
    | inl e ↦ rw e (Emitted-same refl refl)
    | inr e ↦ rw e (finish_boot-Emitted d)
  ]
  flush_boot_at-Emitted (some _) d = Emitted-same refl refl

  -- The events of the mark that `flush` closes.
  abbrev pub dropped : CwDecoder F → List (CharEvent F)
  dropped d =
      let now = div (of_ℕ d.t_samples) (of_ℕ d.fs) in
      if d.state then (on_mark_end d.run_start_s (sub now d.run_start_s) d).1 else []

  chars-close_mark :
      (d : CwDecoder F)
      → (close_mark (div (of_ℕ d.t_samples) (of_ℕ d.fs)) d).result.chars
        ≡ d.result.chars ++ dropped d
  unfolding close_mark
  chars-close_mark d = elim (Bool-cases d.state) [
    | inl e ↦ simp e ((on_mark_end-Emitted d.run_start_s _ d).grows.chars)
    | inr e ↦ simp e (sym (append-nil d.result.chars))
  ]

  chars-flush_open :
      (d : CwDecoder F)
      → (flush_open d).0.result.chars ≡ (d.result.chars ++ dropped d) ++ (flush_open d).1
  unfolding flush_open flush_boot
  chars-flush_open d =
      let now = div (of_ℕ d.t_samples) (of_ℕ d.fs) in
      let closed = close_mark now d in
      let boot = flush_boot_at closed.dit_s closed in
      let all =
        Emitted-seq (flush_boot_at-Emitted closed.dit_s closed)
          (flush_char-Emitted now true boot.0) in
      all.grows.chars
      ∙ ap (λ l. l ++ (boot.1 ++ (flush_char now true boot.0).1)) (chars-close_mark d)

  -- What `flush` returns is everything that it appends to the result's characters but the events
  -- of the mark that it closes: those are lost to whoever listens.
  pub chars-flush :
      (d : CwDecoder F)
      → d.flushed ≡ false
      → (flush d).0.result.chars ≡ (d.result.chars ++ dropped d) ++ (flush d).1
  unfolding flush
  chars-flush d h = simp h (chars-flush_open d)

  -- After `flush` the decoder is flushed and the text does not end in a space, or was so before;
  -- a second `flush` changes nothing and returns nothing.
  pub flush-flush :
      (d : CwDecoder F)
      → d.flushed ≡ false
      → ((flush d).0.flushed ≡ true)
        × (ends_with_space (flush d).0.result.text ≡ false)
        × (flush (flush d).0 ≡ ((flush d).0, []))
  unfolding flush
  flush-flush d h = simp h (unfold flush_open in (refl, ends_with_space-rstrip _, refl))
