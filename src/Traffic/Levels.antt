-- ===== src/Traffic/Levels.antt =====
-- demo/traffic.py: `line`, one channel's edges and its first and last level.
use protocol_emulator.Base.{
  ℕ, zero, suc, ◌+◌, ◌≡◌, refl, false, ◌&&◌, List, [], ◌∷◌, map, Option, none, some, bit_and, ◌==◌,
  if◌then◌else◌, arith, ◌<◌, ◌/◌, ◌^◌, int, All, not,
}
use protocol_emulator.Base.Bits.{shr, bit_and-1}

-- `levels.count(bytes((a, b)))`, whose finds do not overlap.
unfoldable pub count_pair : ℕ → ℕ → List ℕ → ℕ
count_pair a b [] = 0
count_pair a b (x ∷ []) = 0
count_pair a b (x ∷ y ∷ rest) =
    let behind = count_pair a b rest in
    let next = count_pair a b (y ∷ rest) in if (x == a) && (y == b) then 1 + behind else next

abbrev pub last_of : ℕ → List ℕ → ℕ
last_of x [] = x
last_of x (y ∷ rest) = last_of y rest

abbrev pub ends : List ℕ → Option (ℕ × ℕ)
ends [] = none
ends (x ∷ rest) = some (x, last_of x rest)

abbrev pub channel_level : ℕ → ℕ → ℕ
channel_level channel sample = bit_and (shr sample channel) 1

-- The edges, and the first and the last level, where there are samples.
unfoldable pub line : List ℕ → ℕ → ℕ × Option (ℕ × ℕ)
unfolding count_pair
line samples channel =
    let levels = map (channel_level channel) samples in
    (count_pair 0 1 levels + count_pair 1 0 levels, ends levels)

-- The changes from each sample to the next.
abbrev pub changes : List ℕ → ℕ
changes [] = 0
changes (x ∷ []) = 0
changes (x ∷ y ∷ rest) = int (not (x == y)) + changes (y ∷ rest)

adjacent : ℕ → ℕ → List ℕ → ℕ
adjacent a b [] = 0
adjacent a b (x ∷ []) = 0
adjacent a b (x ∷ y ∷ rest) = int ((x == a) && (y == b)) + adjacent a b (y ∷ rest)

adjacent_skip :
    (a b y : ℕ) (rest : List ℕ) → (y == a) ≡ false → adjacent a b (y ∷ rest) ≡ adjacent a b rest
unfolding adjacent
adjacent_skip a b y [] h = refl
adjacent_skip a b y (z ∷ rest) h = rw h (omega arith)

module _ (a b : ℕ) (apart : (b == a) ≡ false) where
  count-adjacent : (xs : List ℕ) → count_pair a b xs ≡ adjacent a b xs
  unfolding count_pair adjacent
  count-adjacent [] = refl
  count-adjacent (x ∷ []) = refl
  count-adjacent (x ∷ y ∷ rest) =
      ground
        (arith, count-adjacent rest, count-adjacent (y ∷ rest), adjacent_skip a b y rest, apart)

either_way :
    (x y : ℕ)
    → x < 2
    → y < 2
    → int ((x == 0) && (y == 1)) + int ((x == 1) && (y == 0)) ≡ int (not (x == y))
either_way zero zero p q = refl
either_way zero (suc zero) p q = refl
either_way (suc zero) zero p q = refl
either_way (suc zero) (suc zero) p q = refl
either_way zero (suc (suc y)) p q = absurd (omega arith)
either_way (suc zero) (suc (suc y)) p q = absurd (omega arith)
either_way (suc (suc x)) y p q = absurd (omega arith)

adjacent-changes :
    (xs : List ℕ) → All (λ x. x < 2) xs → adjacent 0 1 xs + adjacent 1 0 xs ≡ changes xs
unfolding adjacent
adjacent-changes [] h = refl
adjacent-changes (x ∷ []) h = refl
adjacent-changes (x ∷ y ∷ rest) h =
    omega (arith, either_way x y h.0 h.1.0, adjacent-changes (y ∷ rest) h.1)

levels_bound :
    (channel : ℕ) (samples : List ℕ) → All (λ x. x < 2) (map (channel_level channel) samples)
levels_bound channel [] = tt
levels_bound channel (s ∷ samples) =
    (omega (arith, bit_and-1 (s / 2 ^ channel)), levels_bound channel samples)

-- The edges that `line` counts by the two pairs of levels are the changes of the channel from each
-- sample to the next.
pub line-edges :
    (samples : List ℕ) (channel : ℕ)
    → (line samples channel).0 ≡ changes (map (channel_level channel) samples)
unfolding line
line-edges samples channel =
    let levels = map (channel_level channel) samples in
    omega (
      arith,
      count-adjacent 0 1 refl levels,
      count-adjacent 1 0 refl levels,
      adjacent-changes levels (levels_bound channel samples),
    )
