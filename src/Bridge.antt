-- ===== src/Bridge.antt =====
-- python/bridge.py: a debugger's ops on the SWD host. A line is its ops, split at ";" and at spaces,
-- with their fields read as numbers; the empty ones are gone.
pub mod Handle
pub mod Line
pub mod Tests
use Prim.Native.String.{String}
use text.Mathlib.Text.{◌==◌ as str_eq}
use protocol_emulator.Base.{
  ℕ, zero, suc, ◌-◌, Bool, true, false, ◌||◌, not, Option, none, some, List, [], ◌∷◌, ◌++◌, bit_and,
  bit_or, ◌==◌, if◌then◌else◌, M, pure, raise, ◌>>=◌, ◌>>◌, type_error, Error, ok, err,
}
use protocol_emulator.Host.Port.{Port}
use protocol_emulator.Host.Methods as Methods
use protocol_emulator.Bench.{Firmware, load}
use protocol_emulator.Swd.{
  polls, ack_ok, Reading, send, at_index, read, write, wake, line_reset, targetsel, let_go,
}

-- `WAIT` of demo_swd.py
abbrev wait_ack : ℕ
wait_ack = 2

pub record Op : Type 0 where
  pub name : String
  pub args : List ℕ

-- "-", "- %x", "%x", "%x %x" and "?"
pub data Reply : Type 0 where
  plain : Reply
  flag : ℕ → Reply
  status : ℕ → Reply
  read_back : ℕ → ℕ → Reply
  unknown : Reply

-- What `main` prints for a line.
pub data Answer : Type 0 where
  answered : List Reply → Answer
  failed : Error → Answer

-- How an op leaves the loop: it goes on, it breaks, or it returns with nothing to serve any more.
pub data Then : Type 0 where
  goes_on breaks closes : Then

abbrev pub then_of : ℕ → Then
then_of s = if s == ack_ok then goes_on else breaks

abbrev reply_of : ℕ × Option ℕ → Reply
reply_of (s, none) = status s
reply_of (s, some value) = read_back s value

-- `name in "rw"`, of a name that is not empty.
unfoldable pub is_access : String → Bool
is_access name = str_eq name "r" || (str_eq name "w" || str_eq name "rw")

module _ (P : Port) (fuel : ℕ) (swd : Firmware) where
  open P use {State}

  unfoldable pub start : ℕ → M State ℕ
  start half = do
    load P fuel swd 0
    Methods.start P
    got ← send P (half ∷ []) 1
    word ← at_index P got 0
    pure (bit_and word 1)

  -- One turn of the loop of `transfer`: the status, and the data of a read.
  unfoldable pub try_once : ℕ → ℕ → Option ℕ → M State (ℕ × Option ℕ)
  try_once ap address none = do
    r ← read P ap address
    pure (bit_or r.ack (if r.good then 0 else 8), some r.value)
  try_once ap address (some value) = do s ← write P ap address value; pure (s, none)

  -- The loop, with so many turns behind this one.
  unfoldable pub try_from : M State (ℕ × Option ℕ) → ℕ → M State (ℕ × Option ℕ)
  try_from once zero = once
  try_from once (suc left) =
      once >>= λ r. elim (r.0 == wait_ack) [ true ↦ try_from once left | false ↦ pure r ]

  unfoldable pub transfer : ℕ → ℕ → Option ℕ → M State (ℕ × Option ℕ)
  unfolding try_once try_from
  transfer ap address value = try_from (try_once ap address value) (polls - 1)

  -- `self.transfer(*args)`
  unfoldable pub transfer_args : List ℕ → M State (ℕ × Option ℕ)
  transfer_args (ap ∷ address ∷ []) = transfer ap address none
  transfer_args (ap ∷ address ∷ value ∷ []) = transfer ap address (some value)
  transfer_args _ = raise type_error

  unfoldable pub one_arg : List ℕ → M State ℕ
  one_arg (a ∷ []) = pure a
  one_arg _ = raise type_error

  -- The branches of the loop of `handle`.
  unfoldable pub run_op : Op → M State (Reply × Then)
  unfolding is_access one_arg transfer_args start
  run_op op =
      if str_eq op.name "h"
      then (do half ← one_arg op.args; b ← start half; pure (flag b, goes_on))
      else if str_eq op.name "a"
      then (do wake P; pure (plain, goes_on))
      else if str_eq op.name "l"
      then (do line_reset P; pure (plain, goes_on))
      else if str_eq op.name "t"
      then (do target ← one_arg op.args; ack ← targetsel P target; pure (plain, goes_on))
      else if is_access op.name
      then (do r ← transfer_args op.args; pure (reply_of r, then_of r.0))
      else if str_eq op.name "x"
      then (do let_go P; pure (plain, closes))
      else pure (unknown, breaks)

  -- The replies of the ops from here on, and how the last one left the loop.
  unfoldable pub handle_from : List Op → M State (List Reply × Then)
  handle_from [] = pure ([], goes_on)
  handle_from (op ∷ ops) = run_op op >>= λ r. elim r.1 [
    | goes_on ↦ (handle_from ops >>= λ more. pure (r.0 ∷ more.0, more.1))
    | breaks ↦ pure (r.0 ∷ [], breaks)
    | closes ↦ pure (r.0 ∷ [], closes)
  ]

  abbrev serves : Then → Bool
  serves closes = false
  serves _ = true

  unfoldable pub handle : List Op → M State (List Reply × Bool)
  unfolding handle_from
  handle ops = do r ← handle_from ops; pure (r.0, serves r.1)

  -- The loop of `main`, over the lines that come: what it prints for each.
  unfoldable pub serve : List (List Op) → State → List Answer × State
  unfolding handle
  serve [] s = ([], s)
  serve (line ∷ lines) s =
      let (r, t) = handle line s in
      elim r [
        | err e ↦ (let (more, u) = serve lines t in (failed e ∷ more, u))
        | ok (replies, true) ↦ (let (more, u) = serve lines t in (answered replies ∷ more, u))
        | ok (replies, false) ↦ (answered replies ∷ [], t)
      ]

  pub main : List (List Op) → M State (List Answer)
  unfolding serve
  main lines s = let (answers, t) = serve lines s in (do let_go P; pure answers) t
