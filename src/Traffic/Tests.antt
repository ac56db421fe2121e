-- ===== src/Traffic/Tests.antt =====
-- The comparisons of demo/traffic.py at concrete decodes.
use Prim.Native.String.{String}
use native.Mathlib.Decide.{ℕ_discrete}
use mathlib.Core.Option.{map}
use protocol_emulator.Base.{
  ℕ, length, replicate, get_elem?, arith, ◌≡◌, ◌↔◌, refl, List, [], ◌∷◌, ◌++◌, ok, true, false,
  Bool,
}
use protocol_emulator.Base.Equality.{Eq, string_eq}
use protocol_emulator.Traffic.{in_order, run_of, missing}
use protocol_emulator.Traffic.Runs.{RunIn, run_of_lem}
use protocol_emulator.Traffic.Can.{
  CanLine, identifier, data_length, data_byte, crc_sequence, ack_slot, can_lines, all_lines,
  can_bus,
}
use protocol_emulator.Traffic.Crc.{IsFrame, IsNumber, can_lines_data}
use protocol_emulator.Traffic.Divide.{divide}
use protocol_emulator.Traffic.Bus.{IsIdle, can_bus_lem}
use protocol_emulator.Traffic.Levels.{line}

abbrev decode : List String
decode = "sck" ∷ "data 9f" ∷ "data ef" ∷ "data 40" ∷ []

in_order_test : in_order decode ("data 40" ∷ "data 9f" ∷ []) ≡ missing "data 9f" true ∷ []
unfolding in_order
in_order_test = refl

run_of_lem_example :
    (run_of decode ("data 9f" ∷ "data ef" ∷ []) ≡ ok []) ↔ RunIn ("data 9f" ∷ "data ef" ∷ []) decode
run_of_lem_example = run_of_lem "data 9f" ("data ef" ∷ []) decode

-- The frames of test/traces/sigrok/can_remote.trace. Of the remote frame, what sigrok reads as bytes
-- is its CRC 0x1459 and the recessive bits behind it.
remote_test :
    can_lines 0xf0 1 4 [] false
    ≡ ok (
        identifier 0xf0
        ∷ data_length 4
        ∷ data_byte 0 0x28
        ∷ data_byte 1 0xb3
        ∷ data_byte 2 0xff
        ∷ data_byte 3 0xff
        ∷ crc_sequence 0x7fff
        ∷ ack_slot false
        ∷ [])
unfolding can_lines
remote_test = refl

data_test :
    can_lines 0x123 0 2 (0xde ∷ 0xad ∷ []) false
    ≡ ok (
        identifier 0x123
        ∷ data_length 2
        ∷ data_byte 0 0xde
        ∷ data_byte 1 0xad
        ∷ crc_sequence 0x0b6e
        ∷ ack_slot false
        ∷ [])
unfolding can_lines
data_test = refl

can_lines_data_example :
    (stream : List ℕ) × (c : List ℕ) × (crc : ℕ) × (of_bytes : List CanLine) × IsFrame 0x123 2
      (0xde ∷ 0xad ∷ [])
      stream
    × IsNumber 15 crc c
    × (divide (length stream) (stream ++ c) ≡ replicate 15 0)
    × (can_lines 0x123 0 2 (0xde ∷ 0xad ∷ []) true
        ≡ ok (
            (identifier 0x123 ∷ data_length 2 ∷ of_bytes) ++ crc_sequence crc ∷ ack_slot true ∷ []))
    × ((i : ℕ) → get_elem? of_bytes i ≡ map (data_byte i) (get_elem? (0xde ∷ 0xad ∷ []) i))
can_lines_data_example =
    can_lines_data 0x123 2 (0xde ∷ 0xad ∷ []) true (omega arith) (omega arith)
      (omega arith, (omega arith, tt))

CanLine-discrete : Discrete CanLine
CanLine-discrete = hlevel ℕ_discrete

abbrev same_line : CanLine → CanLine → Bool
same_line a b = elim (CanLine-discrete a b) [ yes _ ↦ true | no _ ↦ false ]

same_line_iff : (a b : CanLine) → (same_line a b ≡ true) ↔ (a ≡ b)
same_line_iff a b =
    elim (CanLine-discrete a b)
      as (λ d. (elim d [ yes _ ↦ true | no _ ↦ false ] ≡ true) ↔ (a ≡ b)) [
        | yes h ↦ (λ _. h, λ _. refl)
        | no h ↦ (λ e. absurd (cc), λ e. absurd (h e))
      ]

abbrev can_line_eq : Eq CanLine
can_line_eq = record { beq = same_line; beq_iff = same_line_iff }

abbrev one_frame : List (ℕ × ℕ × ℕ × List ℕ)
one_frame = (0x000, 0, 1, 0x01 ∷ []) ∷ []

abbrev its_lines : List CanLine
its_lines = identifier 0 ∷ data_length 1 ∷ data_byte 0 1 ∷ crc_sequence 447 ∷ ack_slot true ∷ []

its_lines_lem : all_lines one_frame ≡ ok its_lines
unfolding all_lines
its_lines_lem = refl

can_bus_lem_example :
    (can_bus ⦃e = can_line_eq⦄ (line (32 ∷ 0 ∷ 32 ∷ []) 5) one_frame its_lines ≡ ok [])
    ↔ (IsIdle (32 ∷ 0 ∷ 32 ∷ []) × (its_lines ≡ its_lines))
can_bus_lem_example =
    can_bus_lem ⦃e = can_line_eq⦄ (32 ∷ 0 ∷ 32 ∷ []) one_frame its_lines its_lines_lem its_lines

line_test : (line (0 ∷ 2 ∷ 3 ∷ 1 ∷ 2 ∷ []) 1).0 ≡ 3
unfolding line
line_test = refl
