-- ===== src/Snorble/Stream.antt =====
-- The decoder of demo/decoders/snorble/pd.py on the beacons that a wire carries.
use protocol_emulator.Base.{ℕ, ◌-◌, ◌<◌, List, [], ◌∷◌, Option, some}
use protocol_emulator.Snorble.{sync_bounds, Pulse}
use protocol_emulator.Snorble.Beacon.{InBounds, IsSent, IsIdle, frame_bits, Shown, a_byte, is_right}

-- What is on the wire behind the end of a frame: a beacon of each byte in turn, within the limits.
pub data Beacons (rate : ℕ) : Option ℕ → List ℕ → List Pulse → Type 0 where
  silence : {end : Option ℕ} → Beacons rate end [] []
  beacon :
      {end : Option ℕ} {v : ℕ} {vs : List ℕ} {s p0 p1 p2 p3 p4 p5 p6 p7 p8 : Pulse}
      {rest : List Pulse}
      → v < 256
      → IsIdle rate s.fall end
      → InBounds rate sync_bounds (s.rise - s.fall)
      → IsSent rate s.rise (frame_bits v) (p0 ∷ p1 ∷ p2 ∷ p3 ∷ p4 ∷ p5 ∷ p6 ∷ p7 ∷ p8 ∷ [])
      → Beacons rate (some p8.rise) vs rest
      → Beacons rate end (v ∷ vs) (s ∷ p0 ∷ p1 ∷ p2 ∷ p3 ∷ p4 ∷ p5 ∷ p6 ∷ p7 ∷ p8 ∷ rest)

-- A byte and a right parity for each.
abbrev pub read : List ℕ → List Shown
read [] = []
read (v ∷ vs) = a_byte v ∷ is_right ∷ read vs
