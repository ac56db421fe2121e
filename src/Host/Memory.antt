-- ===== src/Host/Memory.antt =====
-- What `configure` and `load` leave in the chip: the configuration's registers and the program
-- memory, which a pointer walks as words are written.
use Prim.Native.String.{String}
use protocol_emulator.Base.{
  ℕ, zero, suc, ◌+◌, ◌-◌, ◌≤◌, ◌<◌, ◌≡◌, refl, ap, Option, none, some, List, [], ◌∷◌, ◌++◌, arith,
  length, get_or, replicate, length-append, length-replicate, ◌==◌, ltb, leb, ◌&&◌, if◌then◌else◌,
}
use protocol_emulator.Host.Registers.{config_reg, program_addr, program_reg, program_words}
use protocol_emulator.Host.Config.{
  Config, config_fields, field_or_zero, config_writes, config_writes_from,
}
use protocol_emulator.Host.Device.{Device, put_all, device_port}
use protocol_emulator.Host.Methods.{configure, configure_from, load}

abbrev pub update : (ℕ → ℕ) → ℕ → ℕ → ℕ → ℕ
update f a v b = if b == a then v else f b

-- Registers that hold what is written to them.
abbrev pub register_file : Device
register_file = record { State = ℕ → ℕ; put = λ reg w s. update s reg w; get = λ reg s. (s reg, s) }

-- What register `config_reg + i` holds after the fields from here on are written, having held
-- `old` before: the field's value, 0 for a field that the config leaves out, and `old` for a
-- reserved register or one past the fields.
abbrev pub configured : Config → List (Option String) → ℕ → ℕ → ℕ
configured config [] i old = old
configured config (none ∷ fields) zero old = old
configured config (some name ∷ fields) zero old = field_or_zero config name
configured config (_ ∷ fields) (suc i) old = configured config fields i old

configure_from_below :
    (config : Config) (fields : List (Option String)) (n r : ℕ) (s : ℕ → ℕ)
    → r < config_reg + n
    → (configure_from (device_port register_file) (config_writes_from config n fields) s).1 r ≡ s r
unfolding configure_from config_writes_from
configure_from_below config [] n r s h = refl
configure_from_below config (none ∷ fields) n r s h =
    configure_from_below config fields (suc n) r s (omega arith)
configure_from_below config (some name ∷ fields) n r s h = ground (
  arith,
  configure_from_below config fields (suc n) r
      (update s (config_reg + n) (field_or_zero config name)),
)

configure_from_at :
    (config : Config) (fields : List (Option String)) (n i r : ℕ) (s : ℕ → ℕ)
    → config_reg + n + i ≡ r
    → (configure_from (device_port register_file) (config_writes_from config n fields) s).1 r
      ≡ configured config fields i (s r)
unfolding configure_from config_writes_from
configure_from_at config [] n i r s h = refl
configure_from_at config (none ∷ fields) n zero r s h =
    configure_from_below config fields (suc n) r s (omega arith)
configure_from_at config (none ∷ fields) n (suc i) r s h =
    configure_from_at config fields (suc n) i r s (omega arith)
configure_from_at config (some name ∷ fields) n zero r s h = ground (
  arith,
  configure_from_below config fields (suc n) r
      (update s (config_reg + n) (field_or_zero config name)),
)
configure_from_at config (some name ∷ fields) n (suc i) r s h = ground (
  arith,
  configure_from_at config fields (suc n) i r
      (update s (config_reg + n) (field_or_zero config name)),
)

-- `configure` gives each field's register the config's value, 0 where the config has none, and
-- leaves reserved registers and all others as they were.
pub configure_registers :
    (config : Config) (s : ℕ → ℕ) (r : ℕ)
    → (configure (device_port register_file) config s).1 r
      ≡ (if ltb r config_reg then s r else configured config config_fields (r - config_reg) (s r))
unfolding configure config_writes
configure_registers config s r = ground (
  arith,
  configure_from_below config config_fields 0 r s,
  configure_from_at config config_fields 0 (r - config_reg) r s,
)

-- A memory with a pointer that moves on with each word written.
pub record Memory : Type 0 where
  pub pointer : ℕ
  pub cell : ℕ → ℕ

abbrev pub store_word : ℕ → Memory → Memory
store_word w m = record { pointer = suc m.pointer; cell = update m.cell m.pointer w }

abbrev pub store : List ℕ → Memory → Memory
store [] m = m
store (w ∷ words) m = store words (store_word w m)

abbrev pub program_memory : Device
program_memory = record {
  State = Memory;
  put = λ reg w m.
      if reg == program_addr
      then record m { pointer = w }
      else if reg == program_reg
      then store_word w m
      else m;
  get = λ reg m. (0, m);
}

-- What `store words m` holds: the words from the pointer on, and the rest as it was.
abbrev pub written : Memory → List ℕ → ℕ → ℕ
written m words i =
    if leb m.pointer i && ltb i (m.pointer + length words)
    then get_or words (i - m.pointer) 0
    else m.cell i

get_or-cons :
    (w : ℕ) (words : List ℕ) (j : ℕ)
    → get_or (w ∷ words) j 0 ≡ (if j == 0 then w else get_or words (j - 1) 0)
get_or-cons w words zero = refl
get_or-cons w words (suc j) = let e : suc j - 1 ≡ j = omega arith in rw e (ground arith)

pub store-written :
    (words : List ℕ) (m : Memory) (i : ℕ) → (store words m).cell i ≡ written m words i
store-written [] m i = ground arith
store-written (w ∷ words) m i =
    let e : i - suc m.pointer ≡ i - m.pointer - 1 = omega arith in
    ground (
      arith,
      store-written words (store_word w m) i,
      get_or-cons w words (i - m.pointer),
      ap (λ (j : ℕ). get_or words j 0) e,
    )

pub put_all-store :
    (words : List ℕ) (m : Memory) → put_all program_memory program_reg words m ≡ store words m
put_all-store [] m = refl
put_all-store (w ∷ words) m = put_all-store words (store_word w m)

get_or-append_zeros :
    (words : List ℕ) (n i : ℕ) → get_or (words ++ replicate n 0) i 0 ≡ get_or words i 0
get_or-append_zeros [] zero i = refl
get_or-append_zeros [] (suc n) zero = refl
get_or-append_zeros [] (suc n) (suc i) = get_or-append_zeros [] n i
get_or-append_zeros (w ∷ words) n zero = refl
get_or-append_zeros (w ∷ words) n (suc i) = get_or-append_zeros words n i

-- A program that fits is loaded from its address on, every word of the memory behind it is 0, and
-- what lies before the address is kept.
pub load_program :
    (words : List ℕ) (address i : ℕ) (m : Memory)
    → address + length words ≤ program_words
    → i < program_words
    → (load (device_port program_memory) words address m).1.cell i
      ≡ (if ltb i address then m.cell i else get_or words (i - address) 0)
unfolding load
load_program words address i m fits below =
    let n = program_words - address - length words in
    ground (
      arith,
      store-written (words ++ replicate n 0) (record m { pointer = address }) i,
      get_or-append_zeros words n (i - address),
      length-append words (replicate n 0),
      length-replicate {A = ℕ} n 0,
    )
