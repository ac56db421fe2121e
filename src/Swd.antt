-- ===== src/Swd.antt =====
-- python/demo_swd.py: an SWD host on the chip's two fifos, and the act that it plays with an RP2040.
-- What only logs is left out.
pub mod Act
pub mod Request
pub mod Retry
pub mod Tests
use protocol_emulator.Base.{
  ℕ, zero, suc, ◌+◌, ◌-◌, ◌*◌, ◌%◌, ◌/◌, Bool, true, false, ◌&&◌, not, List, [], ◌∷◌, ◌++◌, bit_and,
  bit_or, length, get_or, replicate, take, drop, int, ltb, ◌==◌, if◌then◌else◌, M, pure, raise,
  ◌>>=◌, ◌>>◌, short, index_error, Option, none, some, get_elem?,
}
use protocol_emulator.Base.Bits.{shr, shl}
use protocol_emulator.Host.Port.{Port}
use protocol_emulator.Host.Registers.{status_reg}
use protocol_emulator.Host.Methods.{read_one, push, pop, stop, flush, start}
use protocol_emulator.Bench.{depth, found_faults}

abbrev pub ack_ok : ℕ
ack_ok = 1

abbrev alert : List ℕ
alert = 0xf392 ∷ 0x6209 ∷ 0x2d95 ∷ 0x8685 ∷ 0xafe9 ∷ 0xe3dd ∷ 0x0ea2 ∷ 0x19bc ∷ []

abbrev activation : ℕ
activation = 0xf1a0

abbrev line_reset_words : List ℕ
line_reset_words = replicate 4 0xffff ++ 0 ∷ []

abbrev pub polls : ℕ
polls = 20

abbrev steps : ℕ
steps = 10000

-- `sequence`; there is a word at least.
pub sequence : List ℕ → List ℕ
sequence words = shl (length words - 1) 1 ∷ words

-- `bin(fields).count("1")`, of five bits.
abbrev ones : ℕ → ℕ → ℕ
ones zero n = 0
ones (suc bits) n = n % 2 + ones bits (n / 2)

unfoldable pub request : ℕ → ℕ → ℕ → ℕ
request ap read address =
    let fields = bit_or (bit_or ap (shl read 1)) (bit_and address 0xc) in
    let parity = bit_and (ones 5 fields) 1 in
    bit_or (bit_or (bit_or 1 (shl fields 1)) (shl parity 5)) 0x80

-- What `read` gives: the ACK, the data and whether its parity held.
pub record Reading : Type 0 where
  pub ack : ℕ
  pub value : ℕ
  pub good : Bool

-- `ack == OK and good and done(value)`
abbrev pub accepted : (ℕ → Bool) → Reading → Bool
accepted done r = (r.ack == ack_ok) && (r.good && done r.value)

module _ (P : Port) where
  open P use {State}

  -- `got[0]` and the like.
  unfoldable pub at_index : List ℕ → ℕ → M State ℕ
  at_index got i = elim (get_elem? got i) [ none ↦ raise index_error | some word ↦ pure word ]

  -- The words that are not sent yet, once there is room for some.
  unfoldable pub push_some : List ℕ → ℕ → M State (List ℕ)
  push_some rest tx =
      if ltb 0 (length rest) && ltb tx depth
      then (do push P (take (depth - tx) rest); pure (drop (depth - tx) rest))
      else pure rest

  unfoldable pub pop_some : List ℕ → ℕ → M State (List ℕ)
  pop_some got rx = elim (rx == 0) [
    | true ↦ pure got
    | false ↦ pop P rx >>= λ more. pure (got ++ more)
  ]

  unfoldable pub send_from : ℕ → ℕ → ℕ → List ℕ → List ℕ → M State (List ℕ)
  unfolding pop_some push_some
  send_from zero total replies rest got = raise (short (total - length rest) total)
  send_from (suc fuel) total replies rest got = read_one P status_reg >>= λ status.
      pop_some got (bit_and (shr status 10) 15) >>= λ got'.
      push_some rest (bit_and (shr status 6) 15) >>= λ rest'.
      elim ((length rest' == 0) && (length got' == replies)) [
        | true ↦ pure got'
        | false ↦ send_from fuel total replies rest' got'
      ]

  unfoldable pub send : List ℕ → ℕ → M State (List ℕ)
  unfolding send_from
  send words replies = send_from steps (length words) replies words []

  pub bits : List ℕ → M State (Unit {0})
  bits words = send (sequence words) 0 >> pure tt

  pub wake : M State (Unit {0})
  wake = bits ((0xffff ∷ alert) ++ activation ∷ [])

  pub line_reset : M State (Unit {0})
  line_reset = bits line_reset_words

  -- The first of the replies, cut to the ACK's three bits.
  first_ack : List ℕ → M State ℕ
  first_ack got = do word ← at_index got 0; pure (bit_and word 7)

  pub targetsel : ℕ → M State ℕ
  targetsel target = do
    got ← send (bit_or (request 0 0 0xc) 0x100 ∷ bit_and target 0xffff ∷ shr target 16 ∷ []) 1
    first_ack got

  unfoldable pub read : ℕ → ℕ → M State Reading
  unfolding send at_index
  read ap address = do
    got ← send (request ap 1 address ∷ []) 3
    low ← at_index got 0
    high ← at_index got 1
    status ← at_index got 2
    pure (record {
      ack = bit_and status 7;
      value = bit_or low (shl high 16);
      good = bit_and status 8 == 0;
    })

  pub write : ℕ → ℕ → ℕ → M State ℕ
  write ap address value = do
    got ← send (request ap 0 address ∷ bit_and value 0xffff ∷ shr value 16 ∷ []) 1
    first_ack got

  -- The loop of `read_until`, from a first reading on, with so many polls left.
  unfoldable pub retry : M State Reading → (ℕ → Bool) → ℕ → Reading → M State Reading
  retry again done zero r = pure r
  retry again done (suc left) r = elim (accepted done r) [
    | true ↦ pure r
    | false ↦ again >>= retry again done left
  ]

  unfoldable pub read_until : ℕ → ℕ → (ℕ → Bool) → M State Reading
  unfolding retry
  read_until ap address done = read ap address >>= retry (read ap address) done (polls - 1)

  pub select : ℕ → M State Reading
  select target = do line_reset; acknowledged ← targetsel target; read 0 0

  pub let_go : M State (Unit {0})
  let_go = do stop P; flush P; start P
