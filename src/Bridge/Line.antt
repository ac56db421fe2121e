-- ===== src/Bridge/Line.antt =====
-- How python/bridge.py says that a line of ops goes: what does not end OK is the last that is run.
use text.Mathlib.Text.{◌==◌ as str_eq}
use protocol_emulator.Base.{
  ℕ, zero, ◌≡◌, ◌≢◌, Bool, true, false, List, [], ◌∷◌, ◌==◌, M, Result, ok, err, Error,
}
use protocol_emulator.Host.Port.{Port}
use protocol_emulator.Bench.{Firmware}
use protocol_emulator.Bridge.{
  Op, Reply, plain, flag, status, read_back, unknown, Then, goes_on, breaks, closes, handle,
}

-- The reply of an op that ended OK: an access has the ACK 1, and no parity error.
abbrev pub IsRight : Reply → Type 0
IsRight plain = zero ≡ zero
IsRight (flag bit) = zero ≡ zero
IsRight (status s) = s ≡ 1
IsRight (read_back s value) = s ≡ 1
IsRight unknown = ⊥

abbrev pub IsWrong : Reply → Type 0
IsWrong plain = ⊥
IsWrong (flag bit) = ⊥
IsWrong (status s) = s ≢ 1
IsWrong (read_back s value) = s ≢ 1
IsWrong unknown = zero ≡ zero

abbrev pub IsClose : Op → Type 0
IsClose op = str_eq op.name "x" ≡ true

-- What the replies to an op mean for the ops behind it.
abbrev pub Agrees : Op → Result (Reply × Then) → Type 0
Agrees op (err e) = zero ≡ zero
Agrees op (ok (reply, goes_on)) = IsRight reply
Agrees op (ok (reply, breaks)) = IsWrong reply
Agrees op (ok (reply, closes)) = (reply ≡ plain) × IsClose op

-- A line of ops, from the state before it to the outcome: the replies, and whether to serve on. An op that
-- ended OK has the line go on; the others, and those that raise, are the last that is run.
pub data Line {S : Type 0} (run : Op → M S (Reply × Then))
    : List Op → S → Result (List Reply × Bool) × S → Type 0 where
  over : {s : S} → Line run [] s (ok ([], true), s)
  raised :
      {op : Op} {ops : List Op} {s t : S} {e : Error}
      → run op s ≡ (err e, t)
      → Line run (op ∷ ops) s (err e, t)
  went :
      {op : Op} {ops : List Op} {s t u : S} {reply : Reply} {how : Then} {replies : List Reply}
      {serving : Bool}
      → run op s ≡ (ok (reply, how), t)
      → IsRight reply
      → Line run ops t (ok (replies, serving), u)
      → Line run (op ∷ ops) s (ok (reply ∷ replies, serving), u)
  raised_behind :
      {op : Op} {ops : List Op} {s t u : S} {reply : Reply} {how : Then} {e : Error}
      → run op s ≡ (ok (reply, how), t)
      → IsRight reply
      → Line run ops t (err e, u)
      → Line run (op ∷ ops) s (err e, u)
  stopped :
      {op : Op} {ops : List Op} {s t : S} {reply : Reply} {how : Then}
      → run op s ≡ (ok (reply, how), t)
      → IsWrong reply
      → Line run (op ∷ ops) s (ok (reply ∷ [], true), t)
  closed :
      {op : Op} {ops : List Op} {s t : S} {how : Then}
      → run op s ≡ (ok (plain, how), t)
      → IsClose op
      → Line run (op ∷ ops) s (ok (plain ∷ [], false), t)

module _ {S : Type 0} (op : Op) where
  abbrev AllAgree : M S (Reply × Then) → Type 0
  AllAgree m = (s : S) → Agrees op (m s).0

module _ (P : Port) (fuel : ℕ) (swd : Firmware) where
  add : Reply → Result (List Reply × Bool) × P.State → Result (List Reply × Bool) × P.State
  add reply (ok (replies, serving), t) = (ok (reply ∷ replies, serving), t)
  add reply (err e, t) = (err e, t)

  -- What is behind the first op of a line.
  behind : List Op → Result (Reply × Then) × P.State → Result (List Reply × Bool) × P.State
  behind ops (err e, t) = (err e, t)
  behind ops (ok (reply, goes_on), t) = add reply (handle P fuel swd ops t)
  behind ops (ok (reply, breaks), t) = (ok (reply ∷ [], true), t)
  behind ops (ok (reply, closes), t) = (ok (reply ∷ [], false), t)
