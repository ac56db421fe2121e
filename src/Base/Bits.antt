-- ===== src/Base/Bits.antt =====
-- Shifts, `&` and `|` as arithmetic, at every width.
use Prim.Native.Nat.{ℕ, zero, suc, ◌+◌, ◌-◌, ◌*◌, ◌/◌, ◌%◌, ◌^◌, ◌≤◌, ◌<◌, min, max}
use Prim.Native.Nat.{bit_and, bit_or, digits, bitwise}
use Prim.Native.Nat.{bit_xor, differ, bit_and-bitwise, bit_or-bitwise, bit_xor-bitwise}
use mathlib.Core.Path.{◌≡◌, refl, ap, sym, ◌∙◌}
use native.Mathlib.Nat.{pow-suc, one-le-pow, le_refl, div-div-eq-div-mul, div-one}
use native.Mathlib.Omega.{arith}

-- `x >> k` and `x << k`
abbrev pub shr : ℕ → ℕ → ℕ
shr x k = x / 2 ^ k

abbrev pub shl : ℕ → ℕ → ℕ
shl x k = x * 2 ^ k

-- The native operations recur on binary digits with fuel `a`; any larger fuel does as well.
module _ (z : ℕ → ℕ) (f : ℕ → ℕ → ℕ) where
  digits_more : (n m a b : ℕ) → a ≤ n → a ≤ m → digits z f n a b ≡ digits z f m a b
  digits_more zero zero a b p q = refl
  digits_more zero (suc m) zero b p q = refl
  digits_more zero (suc m) (suc a) b p q = absurd (omega arith)
  digits_more (suc n) zero zero b p q = refl
  digits_more (suc n) zero (suc a) b p q = absurd (omega arith)
  digits_more (suc n) (suc m) zero b p q = refl
  digits_more (suc n) (suc m) (suc a) b p q =
      rw (digits_more n m (suc a / 2) (b / 2) (omega arith) (omega arith))

  bitwise-halves :
      (a b : ℕ)
      → bitwise z f (suc a) b ≡ bitwise z f (suc a / 2) (b / 2) * 2 + f (suc a % 2) (b % 2)
  bitwise-halves a b =
      omega (arith, digits_more a (suc a / 2) (suc a / 2) (b / 2) (omega arith) (le_refl _))

bit_and-halves : (a b : ℕ) → bit_and a b ≡ bit_and (a / 2) (b / 2) * 2 + min (a % 2) (b % 2)
bit_and-halves zero b = simp bit_and-bitwise (omega arith)
bit_and-halves (suc a) b = simp bit_and-bitwise (bitwise-halves (λ y. 0) min a b)

bit_or-halves : (a b : ℕ) → bit_or a b ≡ bit_or (a / 2) (b / 2) * 2 + max (a % 2) (b % 2)
bit_or-halves zero b = simp bit_or-bitwise (omega arith)
bit_or-halves (suc a) b = simp bit_or-bitwise (bitwise-halves (λ y. y) max a b)

pub zero-bit_or : (b : ℕ) → bit_or 0 b ≡ b
zero-bit_or b = bit_or-bitwise 0 b

bit_or-zero_below : (n a : ℕ) → a ≤ n → bit_or a 0 ≡ a
bit_or-zero_below n zero h = refl
bit_or-zero_below zero (suc a) h = absurd (omega arith)
bit_or-zero_below (suc n) (suc a) h =
    omega (arith, bit_or-halves (suc a) 0, bit_or-zero_below n (suc a / 2) (omega arith))

pub bit_or-zero : (a : ℕ) → bit_or a 0 ≡ a
bit_or-zero a = bit_or-zero_below a a (le_refl a)

bit_and-zero_below : (n a : ℕ) → a ≤ n → bit_and a 0 ≡ 0
bit_and-zero_below n zero h = refl
bit_and-zero_below zero (suc a) h = absurd (omega arith)
bit_and-zero_below (suc n) (suc a) h =
    omega (arith, bit_and-halves (suc a) 0, bit_and-zero_below n (suc a / 2) (omega arith))

pub bit_and-zero : (a : ℕ) → bit_and a 0 ≡ 0
bit_and-zero a = bit_and-zero_below a a (le_refl a)

twice_shl : (q k : ℕ) → q * 2 ^ suc k ≡ 2 * (q * 2 ^ k)
twice_shl q k = omega (arith, ap (λ (t : ℕ). q * t) (pow-suc 2 k))

-- `(q << k) | r` and `r | (q << k)` are sums where `r` fits `k` bits.
pub bit_or-shl : (k q r : ℕ) → r < 2 ^ k → bit_or (q * 2 ^ k) r ≡ q * 2 ^ k + r
bit_or-shl zero q r h = ground (arith, bit_or-zero q)
bit_or-shl (suc k) q r h = ground (
  arith,
  bit_or-halves (q * 2 ^ suc k) r,
  twice_shl q k,
  pow-suc 2 k,
  bit_or-shl k q (r / 2) (omega (arith, pow-suc 2 k)),
)

pub shl-bit_or : (k q r : ℕ) → r < 2 ^ k → bit_or r (q * 2 ^ k) ≡ q * 2 ^ k + r
shl-bit_or zero q r h = ground (arith, zero-bit_or q)
shl-bit_or (suc k) q r h = ground (
  arith,
  bit_or-halves r (q * 2 ^ suc k),
  twice_shl q k,
  pow-suc 2 k,
  shl-bit_or k q (r / 2) (omega (arith, pow-suc 2 k)),
)

-- `&` with a mask of `k` ones keeps the remainder by `2 ^ k`.
bit_and-ones : (k q r : ℕ) → r < 2 ^ k → bit_and (q * 2 ^ k + r) (2 ^ k - 1) ≡ r
bit_and-ones zero q r h = rw bit_and-zero (omega arith)
bit_and-ones (suc k) q r h = ground (
  arith,
  bit_and-halves (q * 2 ^ suc k + r) (2 ^ suc k - 1),
  twice_shl q k,
  pow-suc 2 k,
  one-le-pow k 2,
  bit_and-ones k q (r / 2) (omega (arith, pow-suc 2 k)),
)

pub bit_and-mask : (k a : ℕ) → bit_and a (2 ^ k - 1) ≡ a % 2 ^ k
bit_and-mask k a = ground (arith, one-le-pow k 2, bit_and-ones k (a / 2 ^ k) (a % 2 ^ k))

-- The masks and packings that the sources write out.
pub bit_and-1 : (a : ℕ) → bit_and a 1 ≡ a % 2
bit_and-1 a = bit_and-mask 1 a

pub bit_and-7 : (a : ℕ) → bit_and a 7 ≡ a % 8
bit_and-7 a = bit_and-mask 3 a

pub bit_and-15 : (a : ℕ) → bit_and a 15 ≡ a % 16
bit_and-15 a = bit_and-mask 4 a

pub bit_and-255 : (a : ℕ) → bit_and a 0xff ≡ a % 256
bit_and-255 a = bit_and-mask 8 a

pub bit_and-1023 : (a : ℕ) → bit_and a 0x3ff ≡ a % 1024
bit_and-1023 a = bit_and-mask 10 a

pub bit_and-65535 : (a : ℕ) → bit_and a 0xffff ≡ a % 65536
bit_and-65535 a = bit_and-mask 16 a

-- A byte pair, in either order of the operands.
pub bit_or-high_byte : (h l : ℕ) → l < 256 → bit_or (h * 256) l ≡ h * 256 + l
bit_or-high_byte h l p = bit_or-shl 8 h l p

pub bit_or-low_byte : (h l : ℕ) → l < 256 → bit_or l (h * 256) ≡ h * 256 + l
bit_or-low_byte h l p = shl-bit_or 8 h l p

-- `^` as arithmetic, as far as its bounds and its parity.
bit_xor-halves : (a b : ℕ) → bit_xor a b ≡ bit_xor (a / 2) (b / 2) * 2 + differ (a % 2) (b % 2)
bit_xor-halves zero b = simp bit_xor-bitwise (omega arith)
bit_xor-halves (suc a) b = simp bit_xor-bitwise (bitwise-halves (λ y. y) differ a b)

digit_cases : (x y : ℕ) → x < 2 → y < 2 → differ x y < 2
digit_cases zero y p q = q
digit_cases (suc x) zero p q = p
digit_cases (suc zero) (suc zero) p q = omega arith
digit_cases (suc zero) (suc (suc y)) p q = absurd (omega arith)
digit_cases (suc (suc x)) (suc y) p q = absurd (omega arith)

digit_sum : (x y : ℕ) → x < 2 → y < 2 → differ x y ≡ (x + y) % 2
digit_sum zero y p q = omega (arith, q)
digit_sum (suc zero) zero p q = refl
digit_sum (suc zero) (suc zero) p q = refl
digit_sum (suc zero) (suc (suc y)) p q = absurd (omega arith)
digit_sum (suc (suc x)) y p q = absurd (omega arith)

pub bit_xor-lt : (k a b : ℕ) → a < 2 ^ k → b < 2 ^ k → bit_xor a b < 2 ^ k
bit_xor-lt zero a b p q =
    let x : a ≡ 0 = omega arith in let y : b ≡ 0 = omega arith in rw (x, y) (omega arith)
bit_xor-lt (suc k) a b p q = omega (
  arith,
  pow-suc 2 k,
  bit_xor-halves a b,
  digit_cases (a % 2) (b % 2) (omega arith) (omega arith),
  bit_xor-lt k (a / 2) (b / 2) (omega (arith, pow-suc 2 k)) (omega (arith, pow-suc 2 k)),
)

pub bit_xor-parity : (a b : ℕ) → bit_xor a b % 2 ≡ (a % 2 + b % 2) % 2
bit_xor-parity a b =
    omega (arith, bit_xor-halves a b, digit_sum (a % 2) (b % 2) (omega arith) (omega arith))

halve : (a k : ℕ) → a / 2 ^ suc k ≡ a / 2 / 2 ^ k
halve a k = sym (div-div-eq-div-mul a 2 (2 ^ k) ∙ ap (λ n. a / n) (omega (arith, pow-suc 2 k)))

pub bit_xor-shr : (k a b : ℕ) → shr (bit_xor a b) k ≡ bit_xor (shr a k) (shr b k)
bit_xor-shr zero a b =
    div-one (bit_xor a b) ∙ (λ i. bit_xor (sym (div-one a) i) (sym (div-one b) i))
bit_xor-shr (suc k) a b =
    let half : bit_xor a b / 2 ≡ bit_xor (a / 2) (b / 2) =
      omega (arith, bit_xor-halves a b, digit_cases (a % 2) (b % 2) (omega arith) (omega arith)) in
    halve (bit_xor a b) k
    ∙ ap (λ n. n / 2 ^ k) half
    ∙ bit_xor-shr k (a / 2) (b / 2)
    ∙ (λ i. bit_xor (sym (halve a k) i) (sym (halve b k) i))
