-- ===== src/Host/Fifo.antt =====
-- `Host.push`, `Host.pop` and the levels in the status word, against a chip whose engine answers
-- each word of the tx fifo with one in the rx fifo.
use protocol_emulator.Base.{
  ℕ, zero, suc, ◌+◌, ◌-◌, ◌*◌, ◌/◌, ◌≤◌, ◌<◌, ◌≡◌, refl, ◌∙◌, Bool, true, false, ◌||◌, List, [],
  ◌∷◌, ◌++◌, append-nil, append_assoc, map, arith, ok, length, take, drop, replicate, min, ◌==◌,
  leb, if◌then◌else◌, length-append, bit_and, take-min, drop-min,
}
use protocol_emulator.Base.Bits.{shr, bit_and-15}
use protocol_emulator.Host.Registers.{status_reg, tx_reg, rx_reg}
use protocol_emulator.Host.Device.{Device, put_all, get_all, device_port}
use protocol_emulator.Host.Methods.{pop}

-- Both fifos, the words of each with the oldest first. `low` and `high` are the status bits below
-- and above the levels, `lost` is set once a word finds its fifo full or an empty rx fifo was read, and
-- `turn` counts the reads of the status.
pub record Fifos : Type 0 where
  pub tx : List ℕ
  pub rx : List ℕ
  pub low : ℕ
  pub high : ℕ
  pub lost : Bool
  pub turn : ℕ

-- `bench.DEPTH` is what either fifo holds.
abbrev pub fifo_depth : ℕ
fifo_depth = 8

-- What every read of the status can tell: the fifos' levels are within their depth, and nothing
-- was lost.
pub record IsSound (s : Fifos) : Type 0 where
  pub low_bits : s.low < 64
  pub in_depth : length s.tx + length s.rx ≤ fifo_depth
  pub kept : s.lost ≡ false

abbrev pub status_word : Fifos → ℕ
status_word s = s.low + 64 * length s.tx + 1024 * length s.rx + 16384 * s.high

-- What the levels of the status can tell: each is within the depth of its fifo.
pub record IsWithin (s : Fifos) : Type 0 where
  pub low_bits : s.low < 64
  pub tx_depth : length s.tx ≤ fifo_depth
  pub rx_depth : length s.rx ≤ fifo_depth

pub IsSound-IsWithin : (s : Fifos) → IsSound s → IsWithin s
IsSound-IsWithin s v = record {
  low_bits = v.low_bits;
  tx_depth = omega (arith, v.in_depth);
  rx_depth = omega (arith, v.in_depth);
}

pub again : (s : Fifos) → IsSound s → IsSound (record s { turn = suc s.turn })
again s v = record { low_bits = v.low_bits; in_depth = v.in_depth; kept = v.kept }

pub levels :
    (s : Fifos)
    → IsWithin s
    → (bit_and (shr (status_word s) 6) 15 ≡ length s.tx)
      × (bit_and (shr (status_word s) 10) 15 ≡ length s.rx)
levels s v = omega (
  arith,
  v.low_bits,
  v.tx_depth,
  v.rx_depth,
  bit_and-15 (status_word s / 64),
  bit_and-15 (status_word s / 1024),
)

-- The engine takes up to that many words and answers each by `answer`; a full rx fifo loses the answer.
module _ (answer : ℕ → ℕ) where
  pub one : Fifos → Fifos
  one s = elim s.tx [
    | [] ↦ s
    | w ∷ tx ↦ record s {
      tx = tx;
      rx = if leb fifo_depth (length s.rx) then s.rx else s.rx ++ answer w ∷ [];
      lost = s.lost || leb fifo_depth (length s.rx);
    }
  ]

  unfoldable pub work : ℕ → Fifos → Fifos
  work zero s = s
  work (suc n) s = work n (one s)

  -- The words of a run in the order of their answers: those in the rx fifo, then those that the tx
  -- fifo's words will make.
  abbrev pub pending : Fifos → List ℕ
  pending s = s.rx ++ map answer s.tx

  one_lem :
      (tx rx : List ℕ) (low high turn : ℕ) (lost : Bool)
      → let s : Fifos = record {
        tx = tx;
        rx = rx;
        low = low;
        high = high;
        lost = lost;
        turn = turn;
      } in
        IsSound s
        → IsSound (one s)
          × (pending (one s) ≡ pending s)
          × (length (one s).tx + length (one s).rx ≡ length tx + length rx)
          × (length rx ≤ length (one s).rx)
          × (0 < length tx + length rx → 0 < length (one s).rx)
  unfolding one
  one_lem [] rx low high turn lost v = (v, refl, refl, omega arith, λ h. omega arith)
  one_lem (w ∷ tx) rx low high turn lost v =
      ground
        (arith, length-append rx (answer w ∷ []), append_assoc rx (answer w ∷ []) (map answer tx))

  one-IsWithin :
      (tx rx : List ℕ) (low high turn : ℕ) (lost : Bool)
      → let s : Fifos = record {
        tx = tx;
        rx = rx;
        low = low;
        high = high;
        lost = lost;
        turn = turn;
      } in
        IsWithin s → IsWithin (one s)
  unfolding one
  one-IsWithin [] rx low high turn lost v = v
  one-IsWithin (w ∷ tx) rx low high turn lost v =
      ground (arith, length-append rx (answer w ∷ []), v.low_bits, v.tx_depth, v.rx_depth)

  pub work-IsWithin : (n : ℕ) (s : Fifos) → IsWithin s → IsWithin (work n s)
  unfolding work
  work-IsWithin zero s v = v
  work-IsWithin (suc n) s v =
      work-IsWithin n (one s) (one-IsWithin s.tx s.rx s.low s.high s.turn s.lost v)

  -- However far the engine gets, it loses nothing, answers in order, and with time for one word
  -- leaves an answer waiting if anything was under way.
  pub work_lem :
      (n : ℕ) (s : Fifos)
      → IsSound s
      → IsSound (work n s)
        × (pending (work n s) ≡ pending s)
        × (length (work n s).tx + length (work n s).rx ≡ length s.tx + length s.rx)
        × (length s.rx ≤ length (work n s).rx)
        × (0 < n → 0 < length s.tx + length s.rx → 0 < length (work n s).rx)
  unfolding work
  work_lem zero s v = (v, refl, refl, omega arith, λ h. elim h [ ])
  work_lem (suc n) s v =
      let t = one s in
      let step = one_lem s.tx s.rx s.low s.high s.turn s.lost v in
      let rest = work_lem n t step.0 in
      (rest.0, rest.1 ∙ step.1, rest.2 ∙ step.2, omega arith, λ _ h. omega (arith, step.4 h))

-- Before each read of the status the engine is given `plan turn` words' time, so `plan` stands for
-- any timing of the two sides.
module _ (answer : ℕ → ℕ) (plan : ℕ → ℕ) where
  abbrev pub poll : Fifos → Fifos
  poll s = work answer (plan s.turn) (record s { turn = suc s.turn })

  -- A read of an empty rx fifo gives 0, and the answer that the engine pushes meanwhile, if there is
  -- one, is dropped.
  abbrev take_rx : Fifos → ℕ × Fifos
  take_rx s = elim s.rx [
    | [] ↦ (0, record s { tx = elim s.tx [ [] ↦ [] | w ∷ tx ↦ tx ]; lost = true })
    | w ∷ rx ↦ (w, record s { rx = rx })
  ]

  abbrev put_tx : ℕ → Fifos → Fifos
  put_tx w s =
      if leb fifo_depth (length s.tx)
      then record s { lost = true }
      else record s { tx = s.tx ++ w ∷ [] }

  abbrev pub fifos : Device
  fifos = record {
    State = Fifos;
    put = λ reg w s. if reg == tx_reg then put_tx w s else s;
    get = λ reg s.
        if reg == status_reg
        then (let t = poll s in (status_word t, t))
        else if reg == rx_reg
        then take_rx s
        else (0, s);
  }

  pub get_all-rx :
      (n : ℕ) (rx tx : List ℕ) (low high turn : ℕ) (lost : Bool)
      → n ≤ length rx
      → let s : Fifos = record {
        tx = tx;
        rx = rx;
        low = low;
        high = high;
        lost = lost;
        turn = turn;
      } in
        get_all fifos rx_reg n s ≡ (take n rx, record s { rx = drop n rx })
  get_all-rx zero rx tx low high turn lost h = refl
  get_all-rx (suc n) [] tx low high turn lost h = elim h [ ]
  get_all-rx (suc n) (w ∷ rx) tx low high turn lost h =
      rw (get_all-rx n rx tx low high turn lost (omega arith))

  -- On fifos within their depth, full ones and those that have lost a word too: `pop` gives the
  -- oldest words that have arrived, padded with zeros to the count asked for, and takes exactly
  -- those. It never reads an empty rx fifo, which would drop the answer that the engine pushes
  -- meanwhile and be marked as a loss.
  pub pop_lem :
      (count : ℕ) (s : Fifos)
      → IsWithin s
      → pop (device_port fifos) count s ≡ (
          let t = poll s in
          (
            ok (take count t.rx ++ replicate (count - length t.rx) 0),
            record t { rx = drop count t.rx },
          ))
  unfolding pop
  pop_lem count s v =
      let t = poll s in
      let within : IsWithin t =
        work-IsWithin answer (plan s.turn) (record s { turn = suc s.turn })
          (record { low_bits = v.low_bits; tx_depth = v.tx_depth; rx_depth = v.rx_depth }) in
      ground (
        arith,
        levels t within,
        get_all-rx (min count (length t.rx)) t.rx t.tx t.low t.high t.turn t.lost,
        take-min count t.rx,
        drop-min count t.rx,
      )

  pub push_lem :
      (words : List ℕ) (s : Fifos)
      → length s.tx + length words ≤ fifo_depth
      → put_all fifos tx_reg words s ≡ record s { tx = s.tx ++ words }
  push_lem [] s h = rw append-nil
  push_lem (w ∷ words) s h = ground (
    arith,
    push_lem words (record s { tx = s.tx ++ w ∷ [] }),
    length-append s.tx (w ∷ []),
    append_assoc s.tx (w ∷ []) words,
  )

  -- A pop of no more words than have arrived.
  pub pop_arrived :
      (count : ℕ) (s : Fifos)
      → IsSound s
      → count ≤ length (poll s).rx
      → pop (device_port fifos) count s
        ≡ (let t = poll s in (ok (take count t.rx), record t { rx = drop count t.rx }))
  pop_arrived count s v h =
      let e : count - length (poll s).rx ≡ 0 = omega arith in
      pop_lem count s (IsSound-IsWithin s v) ∙ rw (e, append-nil) refl
