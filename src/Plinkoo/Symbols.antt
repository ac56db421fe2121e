-- ===== src/Plinkoo/Symbols.antt =====
-- What PLK-2 says, without times: the symbols on the two wires and a reader of them, which the decoder of
-- demo/decoders/plinkoo/pd.py is compared with.
use protocol_emulator.Base.{
  ℕ, zero, suc, ◌+◌, ◌-◌, ◌*◌, ◌%◌, ◌&&◌, not, List, [], ◌∷◌, ◌++◌, leb, ◌==◌, if◌then◌else◌,
}
use protocol_emulator.Snorble.{tick}
use protocol_emulator.Plinkoo.{
  Annotation, sync, ack, nack, checksum_ok, checksum_err, bit, packet_length, byte, warn, t_dh,
  t_syn, t_b, t_ds, length_warn, Edge,
}

-- A rise of STB: behind a long low a sync, else a bit, which is the level of DAT.
pub data Symbol : Type 0 where
  a_sync : Symbol
  level : ℕ → Symbol

abbrev pub symbols : ℕ → ℕ → List Edge → List Symbol
symbols rate fall [] = []
symbols rate fall (e ∷ edges) =
    let same = symbols rate fall edges in
    let fallen = symbols rate e.at edges in
    if not e.matched_stb
    then same
    else if e.stb == 0
    then fallen
    else (if leb (100 * rate) ((e.at - fall) * tick) then a_sync else level e.dat) ∷ same

pub data Shown : Type 0 where
  a_length bad_length a_byte : ℕ → Shown
  right_sum wrong_sum acked refused : Shown

-- What was put, but for the syncs, the single bits and the times.
abbrev pub shown : List Annotation → List Shown
shown [] = []
shown (sync ss es ∷ out) = shown out
shown (ack ss es ∷ out) = acked ∷ shown out
shown (nack ss es ∷ out) = refused ∷ shown out
shown (checksum_ok ss es ∷ out) = right_sum ∷ shown out
shown (checksum_err ss es ∷ out) = wrong_sum ∷ shown out
shown (bit ss es b ∷ out) = shown out
shown (packet_length ss es n ∷ out) = a_length n ∷ shown out
shown (byte ss es v ∷ out) = a_byte v ∷ shown out
shown (warn ss es (length_warn v) ∷ out) = bad_length v ∷ shown out
shown (warn ss es t_dh ∷ out) = shown out
shown (warn ss es t_syn ∷ out) = shown out
shown (warn ss es t_b ∷ out) = shown out
shown (warn ss es t_ds ∷ out) = shown out

-- A packet is a length, that many bytes, a byte that makes the sum of all 0, and an ack.
pub data Stage : Type 0 where
  outside heading acking : Stage
  payload : ℕ → ℕ → Stage

-- A reader has the bits of a byte so far: how many, and their value.
pub record Reader : Type 0 where
  pub stage : Stage
  pub count : ℕ
  pub value : ℕ

abbrev pub complete : Stage → ℕ → Shown × Stage
complete (payload (suc left) sum) v = (a_byte v, payload left (sum + v))
complete (payload zero sum) v = (if (sum + v) % 256 == 0 then right_sum else wrong_sum, acking)
complete _ v = if leb 1 v && leb v 8 then (a_length v, payload v v) else (bad_length v, outside)

abbrev pub take_level : ℕ → Reader → List Shown × Reader
take_level d s =
    if s.count == 7
    then (let (out, stage') = complete s.stage (2 * s.value + d) in
        (out ∷ [], record { stage = stage'; count = 0; value = 0 }))
    else ([], record s { count = s.count + 1; value = 2 * s.value + d })

abbrev pub step : Symbol → Reader → List Shown × Reader
step a_sync s = ([], record { stage = heading; count = 0; value = 0 })
step (level d) s = elim s.stage [
  | outside ↦ ([], s)
  | acking ↦
      ((if d == 0 then acked else refused) ∷ [], record { stage = outside; count = 0; value = 0 })
  | heading ↦ take_level d s
  | payload left sum ↦ take_level d s
]

abbrev pub read : List Symbol → Reader → List Shown
read [] s = []
read (x ∷ xs) s = let (out, s') = step x s in out ++ read xs s'
