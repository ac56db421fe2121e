-- ===== src/Snorble/Tests.antt =====
-- The Snorble decoder on a beacon captured at 24 MHz.
use protocol_emulator.Base.{ℕ, ◌≡◌, refl, List, [], ◌∷◌, none}
use protocol_emulator.Snorble.{Pulse, decode_from, t_l0}
use protocol_emulator.Snorble.Beacon.{shown, a_byte, is_wrong, a_warning}

abbrev low : ℕ → ℕ → Pulse
low fall rise = record { fall = fall; rise = rise }

-- 0xa5, whose parity bit is a one.
abbrev behind_sync : List Pulse
behind_sync =
    low 272 344
    ∷ low 416 445
    ∷ low 517 589
    ∷ low 661 690
    ∷ low 762 791
    ∷ low 863 935
    ∷ low 1007 1036
    ∷ low 1108 1180
    ∷ low 1252 1324
    ∷ []

abbrev captured : List Pulse
captured = low 8 200 ∷ behind_sync

-- The same with a parity bit that is a zero, which is wrong, and wide by a microsecond.
wrong_test :
    shown (
      decode_from 24000000
        (low 8 200
          ∷ low 272 344
          ∷ low 416 445
          ∷ low 517 589
          ∷ low 661 690
          ∷ low 762 791
          ∷ low 863 935
          ∷ low 1007 1036
          ∷ low 1108 1180
          ∷ low 1252 1300
          ∷ [])
        (record { bits = []; starts = []; rise = none; frame_end = none }))
    ≡ a_byte 0xa5 ∷ a_warning t_l0 ∷ is_wrong ∷ []
unfolding decode_from
wrong_test = refl
