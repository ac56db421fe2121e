-- ===== src/Host/Config.antt =====
-- python/protocol_emulator.py: the config's fields and the register writes that are lists of
-- (register, words).
use Prim.Native.String.{String}
use text.Mathlib.Text.{◌==◌ as str_eq}
use protocol_emulator.Base.{
  ℕ, suc, ◌+◌, Bool, true, false, Option, none, some, List, [], ◌∷◌, ◌++◌, bit_or, int,
  if◌then◌else◌,
}
use protocol_emulator.Base.Bits.{shl}
use protocol_emulator.Host.Registers.{
  config_reg, check_base, check_loaded, check_flags, control_reg, data_addr, data_reg, frame_base,
  frame_control,
}

-- A config, the first entry of a key counting.
abbrev pub Config : Type 0
Config = List (String × ℕ)

-- `CONFIG_FIELDS`; `none` is a reserved register.
abbrev pub config_fields : List (Option String)
config_fields =
    some "side_set_count"
    ∷ some "side_set_base"
    ∷ some "side_set_pindirs"
    ∷ some "in_base"
    ∷ some "in_count"
    ∷ some "out_base"
    ∷ some "out_count"
    ∷ some "set_base"
    ∷ some "set_count"
    ∷ some "jmp_pin"
    ∷ some "capture_pin"
    ∷ some "capture_rising"
    ∷ some "in_shift_right"
    ∷ some "out_shift_right"
    ∷ some "autopush"
    ∷ some "push_threshold"
    ∷ some "autopull"
    ∷ some "pull_threshold"
    ∷ some "crc_width"
    ∷ some "crc_poly"
    ∷ some "crc_init"
    ∷ some "crc_reflect"
    ∷ some "stuff_threshold"
    ∷ some "stuff_level"
    ∷ some "wrap_bottom"
    ∷ some "wrap_top"
    ∷ some "period_fraction"
    ∷ none
    ∷ none
    ∷ some "autopull_data"
    ∷ some "manchester"
    ∷ some "line_code"
    ∷ some "route"
    ∷ some "crc_poly_high"
    ∷ some "crc_init_high"
    ∷ some "crc_complement"
    ∷ []

abbrev pub default_config : Config
default_config =
    ("side_set_base", 5)
    ∷ ("in_count", 16)
    ∷ ("out_base", 5)
    ∷ ("out_count", 1)
    ∷ ("set_base", 5)
    ∷ ("set_count", 1)
    ∷ ("in_shift_right", 1)
    ∷ ("out_shift_right", 1)
    ∷ ("push_threshold", 16)
    ∷ ("pull_threshold", 16)
    ∷ ("crc_width", 16)
    ∷ ("crc_poly", 0xa001)
    ∷ ("crc_init", 0xffff)
    ∷ ("crc_reflect", 1)
    ∷ ("crc_complement", 1)
    ∷ ("stuff_level", 1)
    ∷ ("wrap_top", 511)
    ∷ []

-- `config.get(name, 0)`
pub field_or_zero : Config → String → ℕ
field_or_zero [] name = 0
field_or_zero ((key, v) ∷ config) name = if str_eq key name then v else field_or_zero config name

abbrev pub Writes : Type 0
Writes = List (ℕ × List ℕ)

-- The comprehension over `enumerate(CONFIG_FIELDS)`, from the nth on.
unfoldable pub config_writes_from : Config → ℕ → List (Option String) → List (ℕ × ℕ)
config_writes_from config n [] = []
config_writes_from config n (none ∷ fields) = config_writes_from config (suc n) fields
config_writes_from config n (some name ∷ fields) =
    (config_reg + n, field_or_zero config name) ∷ config_writes_from config (suc n) fields

unfoldable pub config_writes : Config → List (ℕ × ℕ)
unfolding config_writes_from field_or_zero
config_writes config = config_writes_from config 0 config_fields

abbrev pub loaded_or_zero : Option ℕ → ℕ
loaded_or_zero none = 0
loaded_or_zero (some p) = p

abbrev pub is_given : Option ℕ → Bool
is_given none = false
is_given (some _) = true

-- What starts the chip's check against the certificate at `base`.
unfoldable pub check_writes : ℕ → Option ℕ → Bool → Bool → Writes
check_writes base loaded single_edge floor =
    (check_base, base ∷ [])
    ∷ (check_loaded, loaded_or_zero loaded ∷ [])
    ∷ (check_flags, flags ∷ [])
    ∷ (control_reg, 0x10 ∷ [])
    ∷ []
  where
    flags : ℕ
    flags = bit_or (bit_or (int (is_given loaded)) (shl (int single_edge) 1)) (shl (int floor) 2)

unfoldable pub certify_writes : List ℕ → ℕ → Option ℕ → Bool → Bool → Writes
unfolding check_writes
certify_writes certificate base loaded single_edge floor =
    ((data_addr, base ∷ []) ∷ (data_reg, certificate) ∷ [])
    ++ check_writes base loaded single_edge floor

unfoldable pub arm_frame_writes : ℕ → ℕ → Bool → ℕ → Writes
arm_frame_writes pin base fifty owner = (frame_base, base ∷ []) ∷ (frame_control, word ∷ []) ∷ []
  where
    word : ℕ
    word = bit_or (bit_or (bit_or (shl owner 8) (shl pin 2)) (shl (int fifty) 1)) 1
