-- ===== src/Traffic/Crc.antt =====
-- The lines that demo/traffic.py expects of a CAN data frame, against the frame's bits, read as numbers, and
-- CAN's polynomial.
use native.Mathlib.Nat.{pow-suc, div-div-eq-div-mul, div-one}
use mathlib.Core.Option.{map}
use protocol_emulator.Base.{
  ℕ, zero, suc, ◌+◌, ◌*◌, ◌%◌, ◌/◌, ◌<◌, ◌^◌, ◌≡◌, refl, sym, ap, ◌∙◌, Bool, List, [], ◌∷◌, ◌++◌,
  ok, arith, All, length, replicate, some, get_elem?,
}
use protocol_emulator.Base.Bits.{shr, bit_and-1}
use protocol_emulator.Traffic.Can.{
  crc15, bits, data_bits, header, byte_lines, the_lines, can_lines, CanLine, identifier,
  data_length, data_byte, crc_sequence, ack_slot,
}
use protocol_emulator.Traffic.Divide.{
  divide, AreBits, AreBits-append, bits-AreBits, length-bits, divide-crc15, crc15-lt,
}

-- The number that bits behind n show, the first one the highest.
abbrev pub number : ℕ → List ℕ → ℕ
number n [] = n
number n (x ∷ xs) = number (2 * n + x) xs

-- The bits show v, in so many of them.
abbrev pub IsNumber : ℕ → ℕ → List ℕ → Type 0
IsNumber width v xs = AreBits xs × (length xs ≡ width) × (number 0 xs ≡ v)

abbrev pub AreBytes : List ℕ → List ℕ → Type 0
AreBytes [] stream = stream ≡ []
AreBytes (b ∷ bytes) stream =
    (d rest : List ℕ) × (stream ≡ d ++ rest) × IsNumber 8 b d × AreBytes bytes rest

-- A data frame up to its CRC: the dominant start, the identifier, the dominant RTR, IDE and reserved bits,
-- the length and the bytes.
abbrev pub IsFrame : ℕ → ℕ → List ℕ → List ℕ → Type 0
IsFrame ident dlc bytes stream =
    (i l d : List ℕ) × (stream ≡ 0 ∷ (i ++ (0 ∷ 0 ∷ 0 ∷ (l ++ d))))
    × IsNumber 11 ident i
    × IsNumber 4 dlc l
    × AreBytes bytes d

next : (v n : ℕ) → 2 * (v / 2 ^ suc n) + v / 2 ^ n % 2 ≡ v / 2 ^ n
next v n =
    ap (λ t. 2 * t + v / 2 ^ n % 2)
      (ap (λ k. v / k) (omega (arith, pow-suc 2 n)) ∙ sym (div-div-eq-div-mul v (2 ^ n) 2))
    ∙ omega arith

number-bits : (v n : ℕ) → number (v / 2 ^ n) (bits v n) ≡ v
unfolding bits
number-bits v zero = div-one v
number-bits v (suc n) =
    ap (λ m. number m (bits v n))
      (ap (λ t. 2 * (v / 2 ^ suc n) + t) (bit_and-1 (shr v n)) ∙ next v n)
    ∙ number-bits v n

bits-IsNumber : (width v : ℕ) → v / 2 ^ width ≡ 0 → IsNumber width v (bits v width)
bits-IsNumber width v h = (
  bits-AreBits v width,
  length-bits v width,
  ap (λ m. number m (bits v width)) (sym h) ∙ number-bits v width,
)

data_bits-AreBytes : (bytes : List ℕ) → All (λ b. b < 256) bytes → AreBytes bytes (data_bits bytes)
unfolding data_bits
data_bits-AreBytes [] a = refl
data_bits-AreBytes (b ∷ bytes) (h, a) = (
  bits b 8,
  data_bits bytes,
  refl,
  bits-IsNumber 8 b (omega (arith, h)),
  data_bits-AreBytes bytes a,
)

data_bits-AreBits : (bytes : List ℕ) → AreBits (data_bits bytes)
unfolding data_bits
data_bits-AreBits [] = tt
data_bits-AreBits (b ∷ bytes) =
    AreBits-append (bits b 8) (data_bits bytes) (bits-AreBits b 8) (data_bits-AreBits bytes)

stream-AreBits : (ident dlc : ℕ) (bytes : List ℕ) → AreBits (header ident 0 dlc ++ data_bits bytes)
unfolding header
stream-AreBits ident dlc bytes =
    AreBits-append (header ident 0 dlc) (data_bits bytes)
      (AreBits-append (0 ∷ bits ident 11) (0 ∷ 0 ∷ 0 ∷ bits dlc 4)
        (omega arith, bits-AreBits ident 11)
        (omega arith, (omega arith, (omega arith, bits-AreBits dlc 4))))
      (data_bits-AreBits bytes)

append_assoc : (xs ys zs : List ℕ) → (xs ++ ys) ++ zs ≡ xs ++ (ys ++ zs)
append_assoc [] ys zs = refl
append_assoc (x ∷ xs) ys zs = ap (λ t. x ∷ t) (append_assoc xs ys zs)

stream-IsFrame :
    (ident dlc : ℕ) (bytes : List ℕ)
    → ident < 2048
    → dlc < 16
    → All (λ b. b < 256) bytes
    → IsFrame ident dlc bytes (header ident 0 dlc ++ data_bits bytes)
unfolding header
stream-IsFrame ident dlc bytes p q a = (
  bits ident 11,
  bits dlc 4,
  data_bits bytes,
  append_assoc (0 ∷ bits ident 11) (0 ∷ 0 ∷ 0 ∷ bits dlc 4) (data_bits bytes),
  bits-IsNumber 11 ident (omega arith),
  bits-IsNumber 4 dlc (omega arith),
  data_bits-AreBytes bytes a,
)

-- The i-th line is of the i-th byte.
byte_lines-get :
    (k : ℕ) (bytes : List ℕ) (i : ℕ)
    → get_elem? (byte_lines k bytes) i ≡ map (data_byte (k + i)) (get_elem? bytes i)
unfolding byte_lines
byte_lines-get k [] i = refl
byte_lines-get k (b ∷ bytes) zero = ap (λ n. some (data_byte n b)) (omega arith)
byte_lines-get k (b ∷ bytes) (suc i) =
    byte_lines-get (suc k) bytes i ∙ ap (λ n. map (data_byte n) (get_elem? bytes i)) (omega arith)

-- Of a data frame, with an identifier below 2048, a length below 16 and bytes below 256: there are
-- the bits of the frame, which are the dominant start, the identifier in 11 bits, the dominant
-- RTR, IDE and reserved bits, the length in 4 and each byte in 8, the highest first, and 15 bits
-- of a CRC, such that the long division of all of them by the generator polynomial of CAN leaves
-- zero; the lines that are expected are the identifier, the length, one line for each byte with
-- its place, that CRC and the ACK slot.
pub can_lines_data :
    (ident dlc : ℕ) (bytes : List ℕ) (acked : Bool)
    → ident < 2048
    → dlc < 16
    → All (λ b. b < 256) bytes
    → (stream : List ℕ) × (c : List ℕ) × (crc : ℕ) × (of_bytes : List CanLine) × IsFrame ident dlc
        bytes stream
      × IsNumber 15 crc c
      × (divide (length stream) (stream ++ c) ≡ replicate 15 0)
      × (can_lines ident 0 dlc bytes acked
          ≡ ok (
              (identifier ident ∷ data_length dlc ∷ of_bytes)
              ++ crc_sequence crc ∷ ack_slot acked ∷ []))
      × ((i : ℕ) → get_elem? of_bytes i ≡ map (data_byte i) (get_elem? bytes i))
can_lines_data ident dlc bytes acked p q a =
    let stream = header ident 0 dlc ++ data_bits bytes in
    (
      stream,
      bits (crc15 stream) 15,
      crc15 stream,
      byte_lines 0 bytes,
      stream-IsFrame ident dlc bytes p q a,
      bits-IsNumber 15 (crc15 stream) (omega (arith, crc15-lt stream)),
      divide-crc15 stream (stream-AreBits ident dlc bytes),
      (unfold can_lines in unfold the_lines in refl),
      λ i. byte_lines-get 0 bytes i ∙ ap (λ n. map (data_byte n) (get_elem? bytes i)) (omega arith),
    )
