-- ===== src/Base/Bits.antt =====
-- Shifts and masks of the unsigned machine words as arithmetic, at every width.
use Prim.Native.Nat.{
  ℕ, zero, suc, ◌+◌, ◌-◌, ◌*◌, ◌/◌, ◌%◌, ◌^◌, ◌<◌, ◌≤◌, min, max, bit_and, bit_or, bit_xor, digits,
  differ, bit_and-bitwise, bit_or-bitwise, bit_xor-bitwise,
}
use mathlib.Core.Bool.{Bool, true, false}
use backup_system.Base.Tests.{◌==◌, ==_iff, if◌then◌else◌}
use mathlib.Core.Path.{◌≡◌, refl, ap, ◌∙◌}
use native.Mathlib.Nat.{
  pow-suc, one-le-pow, div-add-mod, mod-lt, mod-eq_of_lt, add-mul-mod_self_right,
}
use native.Mathlib.Omega.{arith}

-- A count of rounds that covers the first number gives the digits, whatever it is.
module _ (z : ℕ → ℕ) (f : ℕ → ℕ → ℕ) where
  rounds_irrelevant : (k a b : ℕ) → a ≤ k → digits z f k a b ≡ digits z f a a b
  rounds_irrelevant k a b h = go k a a b h (omega arith)
    where
      go : (k j a b : ℕ) → a ≤ k → a ≤ j → digits z f k a b ≡ digits z f j a b
      go k j zero b p q = both k j
        where
          one : (i : ℕ) → digits z f i zero b ≡ z b
          one zero = refl
          one (suc i) = refl

          both : (k j : ℕ) → digits z f k zero b ≡ digits z f j zero b
          both k j = rw (one k, one j)
      go zero j (suc a) b p q = absurd (omega arith)
      go (suc k) zero (suc a) b p q = absurd (omega arith)
      go (suc k) (suc j) (suc a) b p q =
          ap (λ (t : ℕ). t * 2 + f (suc a % 2) (b % 2))
            (go k j (suc a / 2) (b / 2) (omega arith) (omega arith))

-- The lowest digit of an operation, and the rest.
pub bit_and-halves : (x y : ℕ) → bit_and x y ≡ bit_and (x / 2) (y / 2) * 2 + min (x % 2) (y % 2)
bit_and-halves zero y = omega (arith, bit_and-bitwise 0 y, bit_and-bitwise 0 (y / 2))
bit_and-halves (suc x) y = omega (
  arith,
  bit_and-bitwise (suc x / 2) (y / 2),
  bit_and-bitwise (suc x) y,
  rounds_irrelevant (λ _. 0) min x (suc x / 2) (y / 2) (omega arith),
)

pub bit_or-halves : (x y : ℕ) → bit_or x y ≡ bit_or (x / 2) (y / 2) * 2 + max (x % 2) (y % 2)
bit_or-halves zero y = omega (arith, bit_or-bitwise 0 y, bit_or-bitwise 0 (y / 2))
bit_or-halves (suc x) y = omega (
  arith,
  bit_or-bitwise (suc x) y,
  bit_or-bitwise (suc x / 2) (y / 2),
  rounds_irrelevant (λ d. d) max x (suc x / 2) (y / 2) (omega arith),
)

differ-zero : (y : ℕ) → differ 0 y ≡ y
differ-zero y = refl

pub bit_xor-halves : (x y : ℕ) → bit_xor x y ≡ bit_xor (x / 2) (y / 2) * 2 + differ (x % 2) (y % 2)
bit_xor-halves zero y =
    omega (arith, bit_xor-bitwise 0 y, bit_xor-bitwise 0 (y / 2), differ-zero (y % 2))
bit_xor-halves (suc x) y = omega (
  arith,
  bit_xor-bitwise (suc x) y,
  bit_xor-bitwise (suc x / 2) (y / 2),
  rounds_irrelevant (λ d. d) differ x (suc x / 2) (y / 2) (omega arith),
)

-- Induction over the width: `k` digits hold both numbers.
zero-bit_or : (b : ℕ) → bit_or 0 b ≡ b
zero-bit_or b = bit_or-bitwise 0 b

two_pow_suc : (k : ℕ) → 2 ^ suc k ≡ 2 * 2 ^ k
two_pow_suc k = omega (arith, pow-suc 2 k)

field_halves : (q k : ℕ) → q * 2 ^ suc k ≡ 2 * (q * 2 ^ k)
field_halves q k = omega (arith, ap (λ (t : ℕ). q * t) (two_pow_suc k))

-- `r | (q << k)` is a sum when `r` fits in `k` digits.
pub bit_or_low : (k r q : ℕ) → r < 2 ^ k → bit_or r (q * 2 ^ k) ≡ r + q * 2 ^ k
bit_or_low zero zero q h = omega (arith, zero-bit_or (q * 2 ^ 0))
bit_or_low zero (suc r) q h = absurd (omega arith)
bit_or_low (suc k) r q h = omega (
  arith,
  bit_or-halves r (q * 2 ^ suc k),
  field_halves q k,
  two_pow_suc k,
  ap (λ (t : ℕ). bit_or (r / 2) t) half,
  bit_or_low k (r / 2) q (omega (arith, two_pow_suc k)),
)
  where
    half : q * 2 ^ suc k / 2 ≡ q * 2 ^ k
    half = omega (arith, field_halves q k)

bit_or-zero : (n a : ℕ) → a ≤ n → bit_or a 0 ≡ a
bit_or-zero n zero h = refl
bit_or-zero zero (suc a) h = absurd (omega arith)
bit_or-zero (suc n) (suc a) h =
    omega (arith, bit_or-halves (suc a) 0, bit_or-zero n (suc a / 2) (omega arith))

-- `(q << k) | r`, in the other order.
pub bit_or_high : (k q r : ℕ) → r < 2 ^ k → bit_or (q * 2 ^ k) r ≡ q * 2 ^ k + r
bit_or_high zero q zero h = omega (arith, bit_or-zero (q * 2 ^ 0) (q * 2 ^ 0) (omega arith))
bit_or_high zero q (suc r) h = absurd (omega arith)
bit_or_high (suc k) q r h = omega (
  arith,
  bit_or-halves (q * 2 ^ suc k) r,
  field_halves q k,
  two_pow_suc k,
  ap (λ (t : ℕ). bit_or t (r / 2)) half,
  bit_or_high k q (r / 2) (omega (arith, two_pow_suc k)),
)
  where
    half : q * 2 ^ suc k / 2 ≡ q * 2 ^ k
    half = omega (arith, field_halves q k)

bit_and-zero : (n a : ℕ) → a ≤ n → bit_and a 0 ≡ 0
bit_and-zero n zero h = refl
bit_and-zero zero (suc a) h = absurd (omega arith)
bit_and-zero (suc n) (suc a) h =
    omega (arith, bit_and-halves (suc a) 0, bit_and-zero n (suc a / 2) (omega arith))

mask_halves : (k : ℕ) → (2 ^ suc k - 1) / 2 ≡ 2 ^ k - 1
mask_halves k = omega (arith, two_pow_suc k, one-le-pow k 2 (omega arith))

-- The remainder is the number below the modulus that differs by a multiple.
pub mod_unique : (a m q r : ℕ) → a ≡ r + q * m → r < m → a % m ≡ r
mod_unique a m q r e h = rw e (add-mul-mod_self_right r q m ∙ mod-eq_of_lt h)

mod_halves : (k a : ℕ) → a % 2 ^ suc k ≡ a / 2 % 2 ^ k * 2 + a % 2
mod_halves k a =
    mod_unique a (2 ^ suc k) (a / 2 / 2 ^ k) (a / 2 % 2 ^ k * 2 + a % 2)
      (omega (arith, div-add-mod (a / 2) (2 ^ k), field_halves (a / 2 / 2 ^ k) k))
      (omega (arith, two_pow_suc k, mod-lt (a / 2) (one-le-pow k 2 (omega arith))))

-- `a & (2^k - 1)` is the remainder.
pub bit_and_low : (k a : ℕ) → bit_and a (2 ^ k - 1) ≡ a % 2 ^ k
bit_and_low zero a = omega (arith, bit_and-zero a a (omega arith))
bit_and_low (suc k) a = omega (
  arith,
  bit_and-halves a (2 ^ suc k - 1),
  two_pow_suc k,
  one-le-pow k 2 (omega arith),
  ap (λ (t : ℕ). bit_and (a / 2) t) (mask_halves k),
  bit_and_low k (a / 2),
  mod_halves k a,
)

differ-lt : (a b : ℕ) → a < 2 → b < 2 → (differ a b < 2) × (differ (differ a b) b ≡ a)
differ-lt zero zero h g = omega arith
differ-lt zero (suc zero) h g = omega arith
differ-lt (suc zero) zero h g = omega arith
differ-lt (suc zero) (suc zero) h g = omega arith
differ-lt (suc (suc a)) b h g = absurd (omega arith)
differ-lt zero (suc (suc b)) h g = absurd (omega arith)
differ-lt (suc zero) (suc (suc b)) h g = absurd (omega arith)

differ_same : (d : ℕ) → d < 2 → differ d d ≡ 0
differ_same zero h = refl
differ_same (suc zero) h = refl
differ_same (suc (suc d)) h = absurd (omega arith)

bit_xor_halved : (n a : ℕ) → a ≤ n → bit_xor a a ≡ 0
bit_xor_halved n zero h = refl
bit_xor_halved zero (suc a) h = absurd (omega arith)
bit_xor_halved (suc n) (suc a) h = omega (
  arith,
  bit_xor-halves (suc a) (suc a),
  bit_xor_halved n (suc a / 2) (omega arith),
  differ_same (suc a % 2) (omega arith),
)

pub bit_xor_same : (a : ℕ) → bit_xor a a ≡ 0
bit_xor_same a = bit_xor_halved a a (omega arith)

-- Exclusive or stays in the width and undoes itself.
pub bit_xor-lt : (k a b : ℕ) → a < 2 ^ k → b < 2 ^ k → bit_xor a b < 2 ^ k
bit_xor-lt zero zero zero h g = omega arith
bit_xor-lt zero (suc a) b h g = absurd (omega arith)
bit_xor-lt zero zero (suc b) h g = absurd (omega arith)
bit_xor-lt (suc k) a b h g = omega (
  arith,
  bit_xor-halves a b,
  two_pow_suc k,
  differ-lt (a % 2) (b % 2) (omega arith) (omega arith),
  bit_xor-lt k (a / 2) (b / 2) (omega (arith, two_pow_suc k)) (omega (arith, two_pow_suc k)),
)

pub bit_xor-bit_xor : (k a b : ℕ) → a < 2 ^ k → b < 2 ^ k → bit_xor (bit_xor a b) b ≡ a
bit_xor-bit_xor zero zero zero h g = refl
bit_xor-bit_xor zero (suc a) b h g = absurd (omega arith)
bit_xor-bit_xor zero zero (suc b) h g = absurd (omega arith)
bit_xor-bit_xor (suc k) a b h g = omega (
  arith,
  bit_xor-halves a b,
  bit_xor-halves (bit_xor a b) b,
  two_pow_suc k,
  lows,
  ap (λ (t : ℕ). bit_xor t (b / 2)) high,
  ap (λ (t : ℕ). differ t (b % 2)) low,
  bit_xor-bit_xor k (a / 2) (b / 2) (omega (arith, two_pow_suc k)) (omega (arith, two_pow_suc k)),
)
  where
    lows : (differ (a % 2) (b % 2) < 2) × (differ (differ (a % 2) (b % 2)) (b % 2) ≡ a % 2)
    lows = differ-lt (a % 2) (b % 2) (omega arith) (omega arith)

    high : bit_xor a b / 2 ≡ bit_xor (a / 2) (b / 2)
    high = omega (arith, bit_xor-halves a b, lows)

    low : bit_xor a b % 2 ≡ differ (a % 2) (b % 2)
    low = omega (arith, bit_xor-halves a b, lows)

-- A test of all numbers below a bound by evaluation, the largest one first.
pub holds_below : (ℕ → Bool) → ℕ → Bool
holds_below test zero = true
holds_below test (suc bound) =
    let others = holds_below test bound in if test bound then others else false

pub holds_below-at :
    (test : ℕ → Bool) (bound n : ℕ) → n < bound → holds_below test bound ≡ true → test n ≡ true
unfolding holds_below
holds_below-at test zero n below all = absurd (omega arith)
holds_below-at test (suc bound) n below all = ground (arith, holds_below-at test bound n)

-- The top bit of a byte.
top_bit_table : holds_below (λ x. bit_and x 0x80 == x / 128 * 128) 256 ≡ true
unfolding holds_below
top_bit_table = refl

pub bit_and_top : (x : ℕ) → x < 256 → bit_and x 0x80 ≡ x / 128 * 128
bit_and_top x h = (==_iff _ _).0 (holds_below-at _ 256 x h top_bit_table)
