-- ===== src/Tasks/Delay.antt =====
-- How long a retry waits.
use native.Mathlib.Nat.{pow-suc}
use cwstation.Prelude.{ℕ, suc, ◌-◌, ◌*◌, ◌^◌, ◌≤◌, ◌≡◌, refl, ltb, if◌then◌else◌, arith}
use cwstation.Tasks.Policy.{RetryPolicy, World, or_default, cap_of, base_of, delay}

-- The smaller of the two.
abbrev pub least : ℕ → ℕ → ℕ
least a b = if ltb a b then a else b

least_le : (a b : ℕ) → least a b ≤ b
least_le a b = ground arith

least-double : (y c : ℕ) → least (2 * y) c ≡ least (2 * least y c) c
least-double y c = ground arith

power_suc : (x m : ℕ) → x * 2 ^ suc m ≡ 2 * (x * 2 ^ m)
power_suc x m = rw (pow-suc 2 m) (grind arith)

minus_one : (n : ℕ) → suc n - 1 ≡ n
minus_one n = omega arith

power-double : (x n : ℕ) → x * 2 ^ (suc (suc n) - 1) ≡ 2 * (x * 2 ^ (suc n - 1))
power-double x n = rw (minus_one (suc n), minus_one n) (power_suc x n)

times_one : (x : ℕ) → x * 1 ≡ x
times_one x = omega arith

module _ ⦃w : World⦄ where
  -- When `random.uniform(0, x)` is at most `x`, the wait (in milliseconds) lies between half the
  -- bound and the bound, and the bound (in seconds) is at most the policy's cap.
  pub delay-bounds :
      ((x : ℕ) → w.uniform x ≤ x)
      → (p : RetryPolicy) (attempt : ℕ)
      → (base_of p attempt * 500 ≤ delay p attempt)
        × (delay p attempt ≤ base_of p attempt * 1000)
        × (base_of p attempt ≤ cap_of p)
  unfolding delay
  delay-bounds law p attempt = (
    omega arith,
    omega (arith, law (base_of p attempt * 500)),
    unfold base_of in least_le (or_default p.backoff w.backoff_seconds * 2 ^ (attempt - 1)) _,
  )

  -- The bound of the first wait is the backoff under the cap, and each attempt after it doubles the
  -- bound before, again under the cap.
  pub base_of-doubles :
      (p : RetryPolicy) (n : ℕ)
      → (base_of p 1 ≡ least (or_default p.backoff w.backoff_seconds) (cap_of p))
        × (base_of p (suc (suc n)) ≡ least (2 * base_of p (suc n)) (cap_of p))
  unfolding base_of
  base_of-doubles p n =
      let initial = or_default p.backoff w.backoff_seconds in
      (
        rw (times_one initial) refl,
        rw (power-double initial n) (least-double (initial * 2 ^ (suc n - 1)) (cap_of p)),
      )
