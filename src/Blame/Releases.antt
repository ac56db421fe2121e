-- ===== src/Blame/Releases.antt =====
-- The releases of the transfers that the words stand for.
use protocol_emulator.Base.{
  ℕ, ◌+◌, ◌*◌, ◌%◌, ◌^◌, ◌<◌, ◌≡◌, refl, ◌∙◌, ap, Bool, true, false, ◌&&◌, not, Option, List, [],
  ◌∷◌, ◌++◌, All, map, arith, bit_or, replicate, int, if◌then◌else◌,
}
use protocol_emulator.Base.Bits.{shr, shl, bit_or-shl, bit_and-1}
use protocol_emulator.Blame.{
  Edge, at_restart, at_read_bit, at_sent_ack, at_write_bit, at_ack, at_stop, i2c_word, bit_of,
  word_edges, release_edges, pcs_of, release_pcs,
}

-- A byte on the bus, and whether a start comes before it and a stop behind it.
pub record Transfer : Type 0 where
  pub byte : ℕ
  pub starts : Bool
  pub reads : Bool
  pub stops : Bool

abbrev pub word_of : Transfer → ℕ
word_of t = i2c_word t.byte t.starts t.reads t.stops

-- Each clock of a byte and of its acknowledge lets SCL go once; so does a start unless the bus is
-- idle, and a stop.
unfoldable pub edges_of : List Transfer → Bool → List Edge
edges_of [] idle = []
edges_of (t ∷ ts) idle =
    (if t.starts && not idle then at_restart ∷ [] else [])
    ++ (if t.reads
        then replicate 8 at_read_bit ++ at_sent_ack ∷ []
        else replicate 8 at_write_bit ++ at_ack ∷ [])
    ++ (if t.stops then at_stop ∷ [] else [])
    ++ edges_of ts t.stops

word_value :
    (byte : ℕ) (start read stop : Bool)
    → byte < 256
    → i2c_word byte start read stop
      ≡ int start * 32768 + int read * 16384 + byte * 64 + int stop * 32
unfolding i2c_word
word_value byte start read stop h =
    let s : ℕ = int start in
    let r : ℕ = int read in
    let small : (b : Bool) → int b < 2 = λ b. ground arith in
    let a : bit_or (shl s 15) (shl r 14) ≡ (s * 2 + r) * 2 ^ 14 =
      omega (arith, bit_or-shl 15 s (shl r 14) (omega (arith, small read))) in
    let b : bit_or ((s * 2 + r) * 2 ^ 14) (shl byte 6) ≡ (s * 512 + r * 256 + byte) * 2 ^ 6 =
      omega (arith, bit_or-shl 14 (s * 2 + r) (shl byte 6) (omega (arith, h))) in
    ap (λ x. bit_or (bit_or x (shl byte 6)) (shl (int stop) 5)) a
    ∙ ap (λ x. bit_or x (shl (int stop) 5)) b
    ∙ omega (
      arith,
      bit_or-shl 6 (s * 512 + r * 256 + byte) (shl (int stop) 5) (omega (arith, small stop)),
    )

-- The three flags of a word.
word_flags :
    (byte : ℕ) (start read stop : Bool)
    → byte < 256
    → (bit_of (i2c_word byte start read stop) 15 ≡ start)
      × ((bit_of (i2c_word byte start read stop) 14 ≡ read)
          × (bit_of (i2c_word byte start read stop) 5 ≡ stop))
word_flags byte start read stop h =
    let w : ℕ = i2c_word byte start read stop in
    let value : w ≡ int start * 32768 + int read * 16384 + byte * 64 + int stop * 32 =
      word_value byte start read stop h in
    (
      flag w 15 start (omega (arith, value, small start, small read, small stop, h)),
      (
        flag w 14 read (omega (arith, value, small start, small read, small stop, h)),
        flag w 5 stop (omega (arith, value, small start, small read, small stop, h)),
      ),
    )
  where
    small : (b : Bool) → int b < 2
    small b = ground arith

    flag : (w n : ℕ) (b : Bool) → shr w n % 2 ≡ int b → bit_of w n ≡ b
    flag w n true e = ground (arith, e, bit_and-1 (shr w n))
    flag w n false e = ground (arith, e, bit_and-1 (shr w n))

release_edges-word_of :
    (ts : List Transfer) (idle : Bool)
    → All (λ t. t.byte < 256) ts
    → release_edges (map word_of ts) idle ≡ edges_of ts idle
unfolding release_edges word_edges edges_of
release_edges-word_of [] idle v = refl
release_edges-word_of (t ∷ ts) idle (h, v) =
    let (starts, (reads, stops)) = word_flags t.byte t.starts t.reads t.stops h in
    rw (starts, reads, stops, release_edges-word_of ts t.stops v) refl

-- Of the words that `i2c_word` makes of a list of transfers of bytes: `release_pcs` gives the pcs
-- of the releases that the transfers make on an idle bus, a start again where no stop came before
-- it, nine for each byte, and one for each stop, and raises where one of those has no pc.
pub release_pcs_lem :
    (ts : List Transfer) (pc_of : Edge → Option ℕ)
    → All (λ t. t.byte < 256) ts
    → release_pcs (map word_of ts) pc_of ≡ pcs_of pc_of (edges_of ts true)
unfolding release_pcs
release_pcs_lem ts pc_of v = ap (λ edges. pcs_of pc_of edges) (release_edges-word_of ts true v)
