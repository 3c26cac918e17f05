-- ===== src/Webhooks/Verified.antt =====
-- A signature that was made verifies (`sign` and `verify` of apps/webhooks/services.py).
use cwstation.Prelude.{
  ◌≡◌, refl, true, false, not, ◌&&◌, some, [], ◌∷◌, ◌++◌, Text, text_eq_refl, all_where, ltb, strip,
  is_space, lstrip, strip_end, arith,
}
use cwstation.Webhooks.Model.{Outside, WebSettings}
use cwstation.Webhooks.Guard.{is_empty, sign, signature_header_value, verify, after_prefix}

-- What `hexdigest` gives: characters that are ASCII and no blanks, and the prefix is none of them.
pub record HexDigest (o : Outside) : Type 0 where
  pub plain :
      (secret body : Text)
      → all_where (λ c. ltb c 128 && not (is_space c)) (o.hmac_sha256 secret body) ≡ true

lstrip_plain : (t : Text) → all_where (λ c. ltb c 128 && not (is_space c)) t ≡ true → lstrip t ≡ t
unfolding lstrip
lstrip_plain [] h = refl
lstrip_plain (c ∷ t) h = ground arith

strip_end_plain :
    (t : Text) → all_where (λ c. ltb c 128 && not (is_space c)) t ≡ true → strip_end t ≡ t
unfolding strip_end
strip_end_plain [] h = refl
strip_end_plain (c ∷ []) h = ground arith
strip_end_plain (c ∷ d ∷ t) h = rw (strip_end_plain (d ∷ t) (ground arith)) refl

strip_plain : (t : Text) → all_where (λ c. ltb c 128 && not (is_space c)) t ≡ true → strip t ≡ t
unfolding strip
strip_plain t h = rw (lstrip_plain t h) (strip_end_plain t h)

ascii_plain :
    (t : Text)
    → all_where (λ c. ltb c 128 && not (is_space c)) t ≡ true
    → all_where (λ c. ltb c 128) t ≡ true
ascii_plain [] h = refl
ascii_plain (c ∷ t) h = ground (arith, ascii_plain t)

after_prefix-append : (p t : Text) → after_prefix p (p ++ t) ≡ some t
after_prefix-append [] t = refl
after_prefix-append (c ∷ p) t = ground (arith, after_prefix-append p t)

module _ ⦃o : Outside⦄ ⦃s : WebSettings⦄ where
  -- The header that a sender makes is accepted under the same secret, unless that is empty.
  pub verify-signature_header_value :
      HexDigest o
      → (secret body : Text) → is_empty secret ≡ false
      → verify secret body (signature_header_value secret body) ≡ some true
  unfolding verify signature_header_value sign
  verify-signature_header_value hex secret body full =
      let digest : Text = o.hmac_sha256 secret body in
      rw
        (
          full,
          strip_plain digest (hex.plain secret body),
          ascii_plain digest (hex.plain secret body),
          text_eq_refl digest,
        )
        refl
