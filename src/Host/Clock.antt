-- ===== src/Host/Clock.antt =====
-- `Host.now` reads a running clock in halves, in separate frames.
use protocol_emulator.Base.{
  ℕ, suc, ◌+◌, ◌*◌, ◌/◌, ◌%◌, ◌≤◌, ◌<◌, ◌≡◌, ◌∙◌, arith, bit_or, ok, ◌==◌, if◌then◌else◌,
  Bool-cases, inl, inr, false,
}
use protocol_emulator.Base.Bits.{bit_or-shl}
use protocol_emulator.Host.Registers.{now_lo, now_hi}
use protocol_emulator.Host.Device.{Device, device_port}
use protocol_emulator.Host.Methods.{now, now_from}

-- The chip's 24-bit clock, at the cycle that `time` gives for each read in turn.
abbrev pub clock : (ℕ → ℕ) → Device
clock time = record {
  State = ℕ;
  put = λ reg w k. k;
  get = λ reg k. (
    (if reg == now_lo then time k % 65536 else if reg == now_hi then time k / 65536 % 256 else 0),
    suc k,
  );
}

-- The reads are in order, and any five in a row take less than a turn of the low half.
pub record IsPaced (time : ℕ → ℕ) : Type 0 where
  pub ordered : (k : ℕ) → time k ≤ time (suc k)
  pub paced : (k : ℕ) → time (suc (suc (suc (suc k)))) < time k + 65536

-- The high half found the same before and after was the high half in between.
joined_time :
    (a b c : ℕ)
    → a ≤ b
    → b ≤ c
    → c < a + 65536
    → c / 65536 % 256 ≡ a / 65536 % 256
    → bit_or (a / 65536 % 256 * 65536) (b % 65536) ≡ b % 16777216
joined_time a b c p q r e = omega (arith, bit_or-shl 16 (a / 65536 % 256) (b % 65536) (omega arith))

module _ (time : ℕ → ℕ) (v : IsPaced time) where
  abbrev reading : ℕ → ℕ
  reading k = time k / 65536 % 256

  now_from_same :
      (fuel k : ℕ)
      → reading (suc (suc k)) ≡ reading k
      → now_from (device_port (clock time)) (suc fuel) (reading k) (suc k)
        ≡ (ok (time (suc k) % 16777216), suc (suc (suc k)))
  unfolding now_from
  now_from_same fuel k e = ground (
    arith,
    v.ordered k,
    v.ordered (suc k),
    v.ordered (suc (suc k)),
    v.ordered (suc (suc (suc k))),
    v.paced k,
    joined_time (time k) (time (suc k)) (time (suc (suc k))),
  )

  now_from_moved :
      (fuel k : ℕ)
      → (reading (suc (suc k)) == reading k) ≡ false
      → now_from (device_port (clock time)) (suc fuel) (reading k) (suc k)
        ≡ now_from (device_port (clock time)) fuel (reading (suc (suc k))) (suc (suc (suc k)))
  unfolding now_from
  now_from_moved fuel k e = ground arith

  -- The high half moves once in five reads at most.
  settled :
      (k : ℕ)
      → (reading (suc (suc k)) == reading k) ≡ false
      → reading (suc (suc (suc (suc k)))) ≡ reading (suc (suc k))
  settled k e = ground (
    arith,
    v.ordered k,
    v.ordered (suc k),
    v.ordered (suc (suc k)),
    v.ordered (suc (suc (suc k))),
    v.paced k,
  )

  -- Over a clock that is paced, `now` returns within two turns of its loop, and gives the clock's
  -- whole value at the very read of the low half, which lies within the call, also when the low
  -- half turns over meanwhile.
  pub now_exact :
      (fuel k : ℕ)
      → (j : ℕ) × (k < j)
        × (j < k + 4)
        × (now (device_port (clock time)) (suc (suc fuel)) k
            ≡ (ok (time j % 16777216), suc (suc j)))
  unfolding now
  now_exact fuel k = elim (Bool-cases (reading (suc (suc k)) == reading k)) [
    | inl same ↦ (suc k, omega arith, omega arith, now_from_same (suc fuel) k (ground arith))
    | inr moved ↦ (
      suc (suc (suc k)),
      omega arith,
      omega arith,
      now_from_moved (suc fuel) k moved ∙ now_from_same fuel (suc (suc k)) (settled k moved),
    )
  ]
