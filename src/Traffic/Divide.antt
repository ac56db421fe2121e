-- ===== src/Traffic/Divide.antt =====
-- Polynomial division over the bits of a frame, against the CRC register of demo/traffic.py.
use protocol_emulator.Base.{
  ℕ, zero, suc, ◌+◌, ◌*◌, ◌%◌, ◌/◌, ◌<◌, ◌^◌, ◌≡◌, refl, sym, ap, ◌∙◌, List, [], ◌∷◌, ◌++◌, bit_and,
  bit_xor, arith, inl, inr, All, length, replicate, if◌then◌else◌, ◌==◌, ◌⊎◌,
}
use protocol_emulator.Base.Bits.{
  shr, bit_and-1, bit_and-mask, bit_xor-lt, bit_xor-shr, bit_xor-parity,
}
use protocol_emulator.Traffic.Can.{crc15_step, crc15_from, crc15, bits}

-- x ^ 15 + x ^ 14 + x ^ 10 + x ^ 8 + x ^ 7 + x ^ 4 + x ^ 3 + 1, the generator of CAN, but for its first term.
abbrev pub generator : List ℕ
generator = 1 ∷ 0 ∷ 0 ∷ 0 ∷ 1 ∷ 0 ∷ 1 ∷ 1 ∷ 0 ∷ 0 ∷ 1 ∷ 1 ∷ 0 ∷ 0 ∷ 1 ∷ []

-- The difference of two polynomials, by their coefficients.
abbrev pub subtract : List ℕ → List ℕ → List ℕ
subtract [] ys = []
subtract (x ∷ xs) [] = x ∷ xs
subtract (x ∷ xs) (y ∷ ys) = (x + y) % 2 ∷ subtract xs ys

-- n steps of the long division by the generator: the leading term goes.
abbrev pub divide : ℕ → List ℕ → List ℕ
divide zero xs = xs
divide (suc n) [] = []
divide (suc n) (x ∷ xs) = if x == 0 then divide n xs else divide n (subtract xs generator)

abbrev pub AreBits : List ℕ → Type 0
AreBits xs = All (λ x. x < 2) xs

-- The sum of two, as long as the longer.
sum : List ℕ → List ℕ → List ℕ
sum [] ys = ys
sum (x ∷ xs) [] = x ∷ xs
sum (x ∷ xs) (y ∷ ys) = (x + y) % 2 ∷ sum xs ys

subtract-nil : (xs : List ℕ) → subtract xs [] ≡ xs
subtract-nil [] = refl
subtract-nil (x ∷ xs) = refl

subtract-sum : (xs ys zs : List ℕ) → subtract (subtract xs ys) zs ≡ subtract xs (sum ys zs)
unfolding sum
subtract-sum [] ys zs = refl
subtract-sum (x ∷ xs) [] zs = refl
subtract-sum (x ∷ xs) (y ∷ ys) [] = refl
subtract-sum (x ∷ xs) (y ∷ ys) (z ∷ zs) = λ i. (head i) ∷ (subtract-sum xs ys zs i)
  where
    head : ((x + y) % 2 + z) % 2 ≡ (x + (y + z) % 2) % 2
    head = omega arith

subtract-zero : (xs ys : List ℕ) → AreBits xs → subtract xs (ys ++ 0 ∷ []) ≡ subtract xs ys
subtract-zero [] ys b = refl
subtract-zero (x ∷ xs) [] (l, b) = λ i. small i ∷ subtract-nil xs i
  where
    small : (x + 0) % 2 ≡ x
    small = omega (arith, l)
subtract-zero (x ∷ xs) (y ∷ ys) (l, b) = ap (λ t. (x + y) % 2 ∷ t) (subtract-zero xs ys b)

subtract-zeros : (n : ℕ) (xs : List ℕ) → AreBits xs → subtract xs (replicate n 0) ≡ xs
subtract-zeros zero xs b = subtract-nil xs
subtract-zeros (suc n) [] b = refl
subtract-zeros (suc n) (x ∷ xs) (l, b) = λ i. small i ∷ subtract-zeros n xs b i
  where
    small : (x + 0) % 2 ≡ x
    small = omega (arith, l)

subtract_self : (xs : List ℕ) → AreBits xs → subtract xs xs ≡ replicate (length xs) 0
subtract_self [] b = refl
subtract_self (x ∷ xs) (l, b) = λ i. double i ∷ subtract_self xs b i
  where
    double : (x + x) % 2 ≡ 0
    double = omega arith

pub bits-AreBits : (v n : ℕ) → AreBits (bits v n)
unfolding bits
bits-AreBits v zero = tt
bits-AreBits v (suc n) = (omega (arith, bit_and-1 (shr v n)), bits-AreBits v n)

pub length-bits : (v n : ℕ) → length (bits v n) ≡ n
unfolding bits
length-bits v zero = refl
length-bits v (suc n) = ap suc (length-bits v n)

bits-bit_xor : (a b n : ℕ) → bits (bit_xor a b) n ≡ sum (bits a n) (bits b n)
unfolding bits sum
bits-bit_xor a b zero = refl
bits-bit_xor a b (suc n) = λ i. digit i ∷ bits-bit_xor a b n i
  where
    digit : bit_and (shr (bit_xor a b) n) 1 ≡ (bit_and (shr a n) 1 + bit_and (shr b n) 1) % 2
    digit = omega (
      arith,
      bit_and-1 (shr (bit_xor a b) n),
      bit_and-1 (shr a n),
      bit_and-1 (shr b n),
      bit_xor-shr n a b,
      bit_xor-parity (shr a n) (shr b n),
    )

-- Shifted, the register has the same bits but for the first, and a zero.
shifted :
    (c n : ℕ)
    → c * 2 % 32768 / 2 ^ suc n % 2 ≡ c / 2 ^ n % 2
    → bits (c * 2 % 32768) (suc n) ≡ bits c n ++ 0 ∷ []
    → bits (c * 2 % 32768) (suc (suc n)) ≡ bits c (suc n) ++ 0 ∷ []
unfolding bits
shifted c n h k = λ i. digit i ∷ k i
  where
    digit : bit_and (shr (c * 2 % 32768) (suc n)) 1 ≡ bit_and (shr c n) 1
    digit = bit_and-1 (shr (c * 2 % 32768) (suc n)) ∙ (h ∙ sym (bit_and-1 (shr c n)))

first_shifted : (c : ℕ) → bits (c * 2 % 32768) 1 ≡ 0 ∷ []
unfolding bits
first_shifted c = λ i. digit i ∷ []
  where
    digit : bit_and (shr (c * 2 % 32768) 0) 1 ≡ 0
    digit = omega (arith, bit_and-1 (shr (c * 2 % 32768) 0))

register_shifted : (c : ℕ) → bits (c * 2 % 32768) 15 ≡ bits c 14 ++ 0 ∷ []
unfolding bits
register_shifted c = shifted c 13 (omega arith) (
    shifted c 12 (omega arith) (
      shifted c 11 (omega arith) (
        shifted c 10 (omega arith) (
          shifted c 9 (omega arith) (
            shifted c 8 (omega arith) (
              shifted c 7 (omega arith) (
                shifted c 6 (omega arith) (
                  shifted c 5 (omega arith) (
                    shifted c 4 (omega arith) (
                      shifted c 3 (omega arith) (
                        shifted c 2 (omega arith) (
                          shifted c 1 (omega arith)
                            (shifted c 0 (omega arith) (first_shifted c))))))))))))))

bit_xor-sum : (d x : ℕ) → d < 2 → x < 2 → bit_xor d x ≡ (x + d) % 2
bit_xor-sum d x p q = omega (arith, bit_xor-lt 1 d x p q, bit_xor-parity d x)

-- The register's first bit.
abbrev first : ℕ → ℕ
first c = bit_and (shr c 14) 1

top_lem : (c x : ℕ) → x < 2 → bit_xor (first c) x ≡ (x + first c) % 2
top_lem c x q = bit_xor-sum (first c) x (omega (arith, bit_and-1 (shr c 14))) q

step_even : (c x : ℕ) → x < 2 → (x + first c) % 2 ≡ 0 → crc15_step c x ≡ c * 2 % 32768
unfolding crc15_step
step_even c x q h = ground (arith, top_lem c x q, h, bit_and-mask 15 (c * 2))

step_odd :
    (c x : ℕ) → x < 2 → (x + first c) % 2 ≡ 1 → crc15_step c x ≡ bit_xor (c * 2 % 32768) 0x4599
unfolding crc15_step
step_odd c x q h = ground (arith, top_lem c x q, h, bit_and-mask 15 (c * 2))

-- What is left when the polynomial's bits stand behind the first of the register.
left_lem :
    (c : ℕ) (ys : List ℕ)
    → AreBits ys
    → subtract ys (bits (c * 2 % 32768) 15) ≡ subtract ys (bits c 14)
left_lem c ys b = ap (λ r. subtract ys r) (register_shifted c) ∙ subtract-zero ys (bits c 14) b

generator_lem : bits 0x4599 15 ≡ generator
unfolding bits
generator_lem = refl

left_odd :
    (c : ℕ) (ys : List ℕ)
    → AreBits ys
    → subtract ys (bits (bit_xor (c * 2 % 32768) 0x4599) 15)
      ≡ subtract (subtract ys (bits c 14)) generator
left_odd c ys b =
    ap (λ r. subtract ys r) (bits-bit_xor (c * 2 % 32768) 0x4599 15)
    ∙ sym (subtract-sum ys (bits (c * 2 % 32768) 15) (bits 0x4599 15))
    ∙ (λ i. subtract (left_lem c ys b i) (generator_lem i))

divide-step :
    (n c x : ℕ) (ys : List ℕ)
    → x < 2
    → AreBits ys
    → divide (suc n) (subtract (x ∷ ys) (bits c 15))
      ≡ divide n (subtract ys (bits (crc15_step c x) 15))
unfolding bits
divide-step n c x ys q b = elim (below_2 ((x + first c) % 2) (omega arith)) [
  | inl h ↦
      ap (λ t. if t == 0 then divide n rest else divide n (subtract rest generator)) h
      ∙ ap (λ r. divide n r)
          (sym (left_lem c ys b) ∙ ap (λ r. subtract ys (bits r 15)) (sym (step_even c x q h)))
  | inr h ↦
      ap (λ t. if t == 0 then divide n rest else divide n (subtract rest generator)) h
      ∙ ap (λ r. divide n r)
          (sym (left_odd c ys b) ∙ ap (λ r. subtract ys (bits r 15)) (sym (step_odd c x q h)))
]
  where
    rest : List ℕ
    rest = subtract ys (bits c 14)

    below_2 : (t : ℕ) → t < 2 → (t ≡ 0) ⊎ (t ≡ 1)
    below_2 t h = omega arith

pub AreBits-append : (xs ys : List ℕ) → AreBits xs → AreBits ys → AreBits (xs ++ ys)
AreBits-append [] ys a b = b
AreBits-append (x ∷ xs) ys (h, a) b = (h, AreBits-append xs ys a b)

-- The register holds what the division by the generator leaves.
divide-crc15_from :
    (c : ℕ) (xs tail : List ℕ)
    → AreBits xs
    → AreBits tail
    → divide (length xs) (subtract (xs ++ tail) (bits c 15))
      ≡ subtract tail (bits (crc15_from c xs) 15)
unfolding crc15_from
divide-crc15_from c [] tail a b = refl
divide-crc15_from c (x ∷ xs) tail (h, a) b =
    divide-step (length xs) c x (xs ++ tail) h (AreBits-append xs tail a b)
    ∙ divide-crc15_from (crc15_step c x) xs tail a b

no_bits : bits 0 15 ≡ replicate 15 0
unfolding bits
no_bits = refl

-- A polynomial and the register behind it are a multiple of the generator.
pub divide-crc15 :
    (xs : List ℕ) → AreBits xs → divide (length xs) (xs ++ bits (crc15 xs) 15) ≡ replicate 15 0
unfolding crc15
divide-crc15 xs a =
    let r = bits (crc15_from 0 xs) 15 in
    let b : AreBits r = bits-AreBits (crc15_from 0 xs) 15 in
    ap (λ ys. divide (length xs) ys)
      (sym (
        ap (λ z. subtract (xs ++ r) z) no_bits
        ∙ subtract-zeros 15 (xs ++ r) (AreBits-append xs r a b)))
    ∙ divide-crc15_from 0 xs r a b
    ∙ subtract_self r b
    ∙ ap (λ n. replicate n 0) (length-bits (crc15_from 0 xs) 15)

step_lt : (c x : ℕ) → crc15_step c x < 32768
unfolding crc15_step
step_lt c x = ground (arith, bit_and-mask 15 (c * 2), bit_xor-lt 15 (bit_and (c * 2) 0x7fff) 0x4599)

crc15_from-lt : (c : ℕ) (xs : List ℕ) → c < 32768 → crc15_from c xs < 32768
unfolding crc15_from
crc15_from-lt c [] h = h
crc15_from-lt c (x ∷ xs) h = crc15_from-lt (crc15_step c x) xs (step_lt c x)

pub crc15-lt : (xs : List ℕ) → crc15 xs < 32768
unfolding crc15
crc15-lt xs = crc15_from-lt 0 xs (omega arith)
