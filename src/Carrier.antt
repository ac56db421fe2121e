-- ===== src/Carrier.antt =====
-- python/carrier_pins.py: the frames of the carrier's self-test, and `Pins` over a bus.
pub mod Buses
pub mod Frames
pub mod Tests
use protocol_emulator.Base.{
  ℕ, zero, suc, ◌+◌, ◌-◌, ◌*◌, max, Bool, true, false, ◌&&◌, not, Option, none, some, List, [], ◌∷◌,
  ◌++◌, map, bit_and, bit_or, length, get_elem?, take, drop, replicate, ◌==◌, if◌then◌else◌, M,
  Result, ok, err, pure, raise, ◌>>=◌, ◌>>◌, index_error, key_error, no_bitstream,
}
use protocol_emulator.Base.Bits.{shr, shl}

-- `HEADER`
abbrev header_pins : List ℕ
header_pins =
    3 ∷ 5 ∷ 7 ∷ 11 ∷ 13 ∷ 8 ∷ 10 ∷ 12 ∷ 18 ∷ 22 ∷ 26 ∷ 28 ∷ 29 ∷ 31 ∷ 35 ∷ 33 ∷ 37 ∷ 36 ∷ 38 ∷ 40
    ∷ 15 ∷ []

index_in : List ℕ → ℕ → ℕ → Option ℕ
index_in [] i header = none
index_in (h ∷ headers) i header = if h == header then some i else index_in headers (suc i) header

-- `PIN[header]`
pub pin : ℕ → Option ℕ
pin header = index_in header_pins 0 header

-- `IDLE`: header 10 is pin 6, and 28 is pin 11.
abbrev idle_mask : ℕ
idle_mask = bit_or (shl 1 6) (shl 1 11)

abbrev signature : List ℕ
signature = 0x70 ∷ 0x69 ∷ 0x6e ∷ []

-- `slot`, its header already looked up in `PIN`.
pub record Slot : Type 0 where
  pub at_pin : ℕ
  pub level : ℕ
  pub length_us : ℕ
  pub sample_us : ℕ

unfoldable pub slot_words : Option Slot → List ℕ
slot_words none = replicate 5 0
slot_words (some s) =
    bit_or (bit_or 0x40 (shl s.level 7)) s.at_pin
    ∷ shr s.length_us 8
    ∷ s.length_us
    ∷ shr s.sample_us 8
    ∷ s.sample_us
    ∷ []

-- `encode`
unfoldable pub encode : ℕ → ℕ → Option Slot → List ℕ
unfolding slot_words
encode oe out slot =
    map (λ w. bit_and w 0xff)
      (shr oe 16 ∷ shr oe 8 ∷ oe ∷ shr out 16 ∷ shr out 8 ∷ out ∷ slot_words slot)

-- What `decode` gives: the signature, the levels and the sample.
pub record Reply : Type 0 where
  pub signed : List ℕ
  pub levels : ℕ
  pub sample : Option ℕ

-- `decode`; a reply that is too short is an `IndexError`.
unfoldable pub decode : List ℕ → Option Reply
decode (s0 ∷ s1 ∷ s2 ∷ l0 ∷ l1 ∷ l2 ∷ flags ∷ _) = some (record {
  signed = s0 ∷ s1 ∷ s2 ∷ [];
  levels = bit_or (bit_or (shl l0 16) (shl l1 8)) l2;
  sample = if bit_and flags 2 == 0 then none else some (bit_and flags 1);
})
decode _ = none

abbrev same_bytes : List ℕ → List ℕ → Bool
same_bytes [] [] = true
same_bytes (x ∷ xs) (y ∷ ys) = (x == y) && same_bytes xs ys
same_bytes _ _ = false

-- `transfer` and `wait_us`
pub record Bus : Type 1 where
  pub State : Type 0
  pub transfer : List ℕ → State → List ℕ × State
  pub wait_us : ℕ → State → State

-- `Pins`: what it drives, and the bus behind it.
pub record Pins (B : Bus) : Type 0 where
  pub oe : ℕ
  pub out : ℕ
  pub bus : B.State

-- `x & ~mask`
abbrev without : ℕ → ℕ → ℕ
without x mask = x - bit_and x mask

module _ (B : Bus) where
  pub or_raise : {A : Type 0} → Option A → M (Pins B) A
  or_raise none = raise key_error
  or_raise (some a) = pure a

  exchange : Option Slot → M (Pins B) Reply
  exchange slot p =
      let (reply, bus) = B.transfer (encode p.oe p.out slot) p.bus in
      elim (decode reply) [
        | none ↦ (err index_error, record p { bus = bus })
        | some r ↦ (ok r, record p { bus = bus })
      ]

  pub frame : Option Slot → M (Pins B) Reply
  unfolding exchange
  frame slot =
      exchange slot >>= λ r. if same_bytes r.signed signature then pure r else raise no_bitstream

  pub wait : ℕ → M (Pins B) (Unit {0})
  wait us p = (ok tt, record p { bus = B.wait_us us p.bus })

  -- One of the changes: a level, or none to let the pin go.
  unfoldable pub change : ℕ → Option ℕ → Pins B → Pins B
  change mask none p = record p { oe = without p.oe mask; out = without p.out mask }
  change mask (some level) p = record p {
    oe = bit_or p.oe mask;
    out = if level == 0 then without p.out mask else bit_or p.out mask;
  }

  change_all : List (ℕ × Option ℕ) → M (Pins B) (Unit {0})
  change_all [] = pure tt
  change_all ((header, level) ∷ changes) = do
    at ← or_raise (pin header)
    changed ← λ p. (ok tt, change (shl 1 at) level p)
    change_all changes

  pub put : List (ℕ × Option ℕ) → M (Pins B) ℕ
  put changes = do changed ← change_all changes; r ← frame none; pure r.levels

  pub apply : List (ℕ × Option ℕ) → M (Pins B) ℕ
  apply changes = do before ← put changes; waited ← wait 1000; r ← frame none; pure r.levels

  pub idle : M (Pins B) ℕ
  idle = do set ← λ p. (ok tt, record p { oe = idle_mask; out = idle_mask }); apply []

  -- `slot`: the sample of the slot before it.
  pub take_slot : ℕ → ℕ → ℕ → ℕ → ℕ → M (Pins B) (Option ℕ)
  take_slot header level length_us sample_us behind = do
    at ← or_raise (pin header)
    before ←
        frame (
          some
            (record { at_pin = at; level = level; length_us = length_us; sample_us = sample_us }))
    waited ← wait (max length_us sample_us + behind + 2)
    r ← frame none
    pure r.sample

  -- `bit`
  pub level_of : ℕ → ℕ → M (Pins B) ℕ
  level_of levels header = do at ← or_raise (pin header); pure (bit_and (shr levels at) 1)
