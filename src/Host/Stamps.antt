-- ===== src/Host/Stamps.antt =====
-- `Host.edge_stamps` against the chip's queue of edge stamps (src/host_port.ml: the level in bits
-- 8 to 10 of the time's high word, the flag of a loss in bit 15, the pop on reading the pads' high
-- word).
use protocol_emulator.Base.{
  ℕ, zero, suc, ◌+◌, ◌*◌, ◌/◌, ◌%◌, ◌<◌, ◌≡◌, Bool, true, false, List, [], ◌∷◌, ◌++◌, append-nil,
  append_assoc, All, length, arith, ok, int, ◌==◌, if◌then◌else◌, bit_and, not,
}
use protocol_emulator.Base.Bits.{shr, bit_or-shl, bit_and-255, bit_and-7}
use protocol_emulator.Host.Registers.{stamp_time_lo, stamp_time_hi, stamp_pins_lo, stamp_pins_hi}
use protocol_emulator.Host.Device.{Device, device_port}
use protocol_emulator.Host.Methods.{edge_stamps, stamps_from, stamp}

pub record Queue : Type 0 where
  pub stamps : List (ℕ × ℕ)
  pub lost : Bool

abbrev head_or_zero : List (ℕ × ℕ) → ℕ × ℕ
head_or_zero [] = (0, 0)
head_or_zero (s ∷ _) = s

abbrev tail : List (ℕ × ℕ) → List (ℕ × ℕ)
tail [] = []
tail (_ ∷ stamps) = stamps

abbrev time_hi : Queue → ℕ
time_hi q = int q.lost * 32768 + length q.stamps * 256 + (head_or_zero q.stamps).0 / 65536

abbrev pub stamp_queue : Device
stamp_queue = record {
  State = Queue;
  put = λ reg w q. q;
  get = λ reg q.
      if reg == stamp_time_hi
      then (time_hi q, q)
      else if reg == stamp_time_lo
      then ((head_or_zero q.stamps).0 % 65536, q)
      else if reg == stamp_pins_lo
      then ((head_or_zero q.stamps).1 % 65536, q)
      else if reg == stamp_pins_hi
      then ((head_or_zero q.stamps).1 / 65536, record q { stamps = tail q.stamps })
      else (0, q);
}

-- A stamp is a 24-bit time and 20 pads.
abbrev pub IsStamp : ℕ × ℕ → Type 0
IsStamp (time, pads) = (time < 16777216) × (pads < 1048576)

stamp_lem :
    (time pads n : ℕ) (lost : Bool)
    → time < 16777216
    → pads < 1048576
    → stamp (int lost * 32768 + n * 256 + time / 65536) (time % 65536) (pads % 65536) (pads / 65536)
      ≡ (time, pads)
unfolding stamp
stamp_lem time pads n lost ht hp =
    let hi = int lost * 32768 + n * 256 + time / 65536 in
    ground (
      arith,
      bit_and-255 hi,
      bit_or-shl 16 (bit_and hi 0xff) (time % 65536),
      bit_or-shl 16 (pads / 65536) (pads % 65536),
    )

level_lem :
    (n time : ℕ) (lost : Bool)
    → n < 8
    → time < 16777216
    → (bit_and (shr (int lost * 32768 + n * 256 + time / 65536) 8) 7 ≡ n)
      × ((not (shr (int lost * 32768 + n * 256 + time / 65536) 15 == 0)) ≡ lost)
level_lem n time true hn ht =
    (omega (arith, bit_and-7 ((32768 + n * 256 + time / 65536) / 256)), ground arith)
level_lem n time false hn ht =
    (omega (arith, bit_and-7 ((int false * 32768 + n * 256 + time / 65536) / 256)), ground arith)

stamps_from_lem :
    (fuel : ℕ) (stamps before : List (ℕ × ℕ)) (lost : Bool)
    → length stamps < fuel
    → length stamps < 8
    → All IsStamp stamps
    → stamps_from
        (device_port stamp_queue)
        fuel
        (time_hi (record { stamps = stamps; lost = lost }))
        before
        (record { stamps = stamps; lost = lost })
      ≡ (ok (before ++ stamps, lost), record { stamps = []; lost = lost })
unfolding stamps_from
stamps_from_lem zero stamps before lost f h v = absurd (omega arith)
stamps_from_lem (suc fuel) [] before lost f h v =
    ground (arith, level_lem 0 0 lost, append-nil before)
stamps_from_lem (suc fuel) ((time, pads) ∷ stamps) before lost f h v =
    let rest = before ++ (time, pads) ∷ [] in
    ground (
      arith,
      level_lem (suc (length stamps)) time lost,
      stamp_lem time pads (suc (length stamps)) lost,
      stamps_from_lem fuel stamps rest lost,
      append_assoc before ((time, pads) ∷ []) stamps,
    )

-- With more fuel than stamps, fewer than eight of them, each of the width that the registers have:
-- `edge_stamps` returns every queued stamp in order and the flag of a loss, and leaves the queue
-- empty.
pub edge_stamps_lem :
    (fuel : ℕ) (q : Queue)
    → length q.stamps < fuel
    → length q.stamps < 8
    → All IsStamp q.stamps
    → edge_stamps (device_port stamp_queue) fuel q
      ≡ (ok (q.stamps, q.lost), record q { stamps = [] })
unfolding edge_stamps
edge_stamps_lem fuel q f h v = stamps_from_lem fuel q.stamps [] q.lost f h v
