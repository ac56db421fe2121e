-- ===== src/Host/Device.antt =====
-- What answers a host: a device with 16-bit registers, and the chip's SPI slave in front of it. A
-- frame is a command byte, write bit then a seven-bit register, then words high byte first, each
-- of which repeats the access (docs, "Host port").
use protocol_emulator.Base.{
  ℕ, zero, suc, ◌+◌, ◌-◌, ◌*◌, ◌/◌, ◌%◌, ◌<◌, List, [], ◌∷◌, map, leb, if◌then◌else◌, ok,
}
use protocol_emulator.Host.Port.{Transport, Port}

pub record Device : Type 1 where
  pub State : Type 0
  pub put : ℕ → ℕ → State → State
  pub get : ℕ → State → ℕ × State

module _ (D : Device) where
  open D use {State, put, get}

  abbrev pub put_all : ℕ → List ℕ → State → State
  put_all reg [] s = s
  put_all reg (w ∷ words) s = put_all reg words (put reg w s)

  abbrev pub get_all : ℕ → ℕ → State → List ℕ × State
  get_all reg zero s = ([], s)
  get_all reg (suc n) s =
      let (w, t) = get reg s in let (words, u) = get_all reg n t in (w ∷ words, u)

  -- The words behind a write's command byte; a last half word is not taken.
  unfoldable pub take_words : ℕ → List ℕ → State → State
  take_words reg (high ∷ low ∷ bytes) s = take_words reg bytes (put reg (high * 256 + low) s)
  take_words reg _ s = s

  -- The bytes that come back while a read is clocked out.
  unfoldable pub give_words : ℕ → List ℕ → State → List ℕ × State
  give_words reg (_ ∷ _ ∷ bytes) s =
      let (w, t) = get reg s in
      let (reply, u) = give_words reg bytes t in (w / 256 ∷ w % 256 ∷ reply, u)
  give_words reg _ s = ([], s)

  unfoldable pub exchange : List ℕ → State → List ℕ × State
  unfolding take_words give_words
  exchange [] s = ([], s)
  exchange (command ∷ bytes) s =
      if leb 128 command
      then (map (λ _. 0) (command ∷ bytes), take_words (command - 128) bytes s)
      else (let (reply, t) = give_words command bytes s in (0 ∷ reply, t))

  abbrev pub serve : Transport
  serve = record { State = State; transfer = exchange }

  -- The port that the device is, once the frames are out of the way.
  abbrev pub device_port : Port
  device_port = record {
    State = State;
    write = λ reg words s. (ok tt, put_all reg words s);
    read = λ reg count s. let (words, t) = get_all reg count s in (ok words, t);
  }

  -- Every register reads as a word.
  abbrev pub IsWide : Type 0
  IsWide = (reg : ℕ) (s : State) → (get reg s).0 < 65536
