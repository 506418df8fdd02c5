-- ===== src/Prelude/Bits.antt =====
-- `|` on numbers whose bits do not meet is a sum.
use Prim.Native.Nat.{
  ℕ, zero, suc, ◌+◌, ◌*◌, ◌/◌, ◌^◌, ◌≤◌, ◌<◌, bit_or, max, digits, bit_or-bitwise,
}
use mathlib.Core.Path.{◌≡◌, ap, ◌∙◌}
use native.Mathlib.Nat.{pow-suc}
use native.Mathlib.Omega.{arith}

-- The low number has `k` digits at most, and the other one has none below them.
merged :
    (rounds k low q : ℕ)
    → low ≤ rounds
    → low < 2 ^ k
    → digits (λ d. d) max rounds low (q * 2 ^ k) ≡ low + q * 2 ^ k
merged zero k low q enough fits = omega arith
merged (suc rounds) k zero q enough fits = omega arith
merged (suc rounds) zero (suc low) q enough fits = absurd (omega arith)
merged (suc rounds) (suc k) (suc low) q enough fits =
    let doubled : q * 2 ^ suc k ≡ 2 * (q * 2 ^ k) =
      omega (arith, ap (λ (t : ℕ). q * t) (pow-suc 2 k)) in
    let half : q * 2 ^ suc k / 2 ≡ q * 2 ^ k = omega (arith, doubled) in
    let below : suc low / 2 < 2 ^ k = omega (arith, fits, pow-suc 2 k) in
    rw half (omega (arith, merged rounds k (suc low / 2) q (omega (arith, enough)) below, doubled))

-- `low | q << k`, where `low` has only the `k` low bits.
pub bit_or-shift : (k low q : ℕ) → low < 2 ^ k → bit_or low (q * 2 ^ k) ≡ low + q * 2 ^ k
bit_or-shift k low q fits = bit_or-bitwise low (q * 2 ^ k) ∙ merged low k low q (omega arith) fits
