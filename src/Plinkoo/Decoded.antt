-- ===== src/Plinkoo/Decoded.antt =====
-- The decoder of demo/decoders/plinkoo/pd.py shows what the reader of Plinkoo/Symbols reads.
use protocol_emulator.Base.{
  ℕ, zero, suc, ◌-◌, ◌*◌, ◌<◌, ◌≡◌, refl, sym, ap, ◌∙◌, subst, false, List, [], ◌∷◌, ◌++◌, Option,
  none, some, leb, ◌==◌, if◌then◌else◌, arith, Bool-cases, inl, inr, All,
}
use protocol_emulator.Snorble.{tick}
use protocol_emulator.Plinkoo.{
  Annotation, sync, Edge, Reading, take_byte, take_bit, check_period, check_setup, move_dat,
  take_known, take_rise, take_strobe, turn, decode_from, decode, at_start,
}
use protocol_emulator.Plinkoo.Symbols.{
  shown, Stage, outside, heading, acking, payload, Reader, step, level, a_sync, symbols, read,
  Symbol,
}
use protocol_emulator.Plinkoo.Quiet.{
  shown-append, period_shown, setup_shown, hold_shown, sync_shown,
}
use protocol_emulator.Plinkoo.Bits.{acking_bit, heading_bit, payload_bit}
use protocol_emulator.Plinkoo.Kept.{KeepsAs, Agree, nothing_held}

module _ (rate : ℕ) where
  take_bit-fall : (e : Edge) (r : Reading) → (take_bit e r).1.fall ≡ r.fall
  unfolding take_bit take_byte
  take_bit-fall e r = ground arith

  take_rise-fall : (e : Edge) (r : Reading) → (take_rise rate e r).1.fall ≡ r.fall
  unfolding take_rise
  take_rise-fall e r = ground (arith, take_bit-fall e (record r { last_rise = some e.at }))

  module _ (e : Edge) (r : Reading)
      (short : leb (100 * rate) ((e.at - r.fall) * tick) ≡ false) where
    -- The decoder as it takes a bit.
    abbrev at_bit : Reading
    at_bit = record r { last_rise = some e.at }

    take_rise_bit :
        (x : ℕ)
        → r.sync_low ≡ some x
        → take_rise rate e r ≡ (
          check_period rate e.at x r.last_rise
              ++ (check_setup rate e.at r.dat_moved ++ (take_bit e at_bit).0),
          (take_bit e at_bit).1,
        )
    unfolding take_rise
    take_rise_bit x is = rw short (ap (λ o. take_known rate o e r) is)

    take_rise-none : r.sync_low ≡ none → take_rise rate e r ≡ ([], r)
    unfolding take_rise
    take_rise-none is = rw short (ap (λ o. take_known rate o e r) is)

    bit_agrees :
        (s : Reader)
        → (x : ℕ) × (r.sync_low ≡ some x)
        → Agree (take_bit e at_bit) (step (level r.dat) s)
        → Agree (take_rise rate e r) (step (level r.dat) s)
    bit_agrees s (x, is) (same, kept) =
        subst (λ t. Agree t (step (level r.dat) s)) (sym (take_rise_bit x is))
          (
            period_shown rate e.at x r.last_rise _ ∙ setup_shown rate e.at r.dat_moved _ ∙ same,
            kept,
          )

    level_agrees :
        (stage : Stage) (count value : ℕ)
        → r.dat < 2
        → KeepsAs r (record { stage = stage; count = count; value = value })
        → Agree
            (take_rise rate e r)
            (step (level r.dat) (record { stage = stage; count = count; value = value }))
    level_agrees outside count value l k =
        subst (λ t. Agree t ([], record { stage = outside; count = count; value = value }))
          (sym (take_rise-none k)) (refl, k)
    level_agrees heading count value l k =
        bit_agrees (record { stage = heading; count = count; value = value }) k.0
          (heading_bit e at_bit l count value k)
    level_agrees acking count value l k =
        bit_agrees (record { stage = acking; count = count; value = value }) k.0
          (acking_bit e at_bit l count value k)
    level_agrees (payload left sum) count value l k =
        bit_agrees (record { stage = payload left sum; count = count; value = value }) k.0
          (payload_bit e at_bit l left sum count value k)

  -- A rise, which is a sync or a bit.
  rise_agrees :
      (e : Edge) (r : Reading) (s : Reader)
      → r.dat < 2
      → KeepsAs r s
      → Agree
          (take_rise rate e r)
          (step (if leb (100 * rate) ((e.at - r.fall) * tick) then a_sync else level r.dat) s)
  unfolding take_rise
  rise_agrees e r s l k = elim (Bool-cases (leb (100 * rate) ((e.at - r.fall) * tick))) [
    | inl long ↦ rw long (
      sync_shown rate r.fall e.at (sync r.fall e.at ∷ []),
      ((e.at - r.fall, refl), refl, nothing_held []),
    )
    | inr short ↦
        subst (λ b. Agree (take_rise rate e r) (step (if b then a_sync else level r.dat) s))
          (sym short) (level_agrees e r short s.stage s.count s.value l k)
  ]

  move_dat_lem :
      (e : Edge) (r : Reading)
      → (moved : Option ℕ) × ((move_dat rate e r).1 ≡ record r { dat = e.dat; dat_moved = moved })
        × (shown (move_dat rate e r).0 ≡ [])
  unfolding move_dat
  move_dat_lem e r = elim (Bool-cases (e.dat == r.dat)) [
    | inl same ↦
        (r.dat_moved, rw same (ap (λ d. record r { dat = d }) (ground (arith, same))), rw same refl)
    | inr other ↦ (some e.at, rw other refl, rw other (hold_shown rate e.at r.last_rise r.sync_low))
  ]

  module _ (e : Edge) (edges : List Edge) (binary : e.dat < 2)
      (rest : (r : Reading) (s : Reader)
        → KeepsAs r s
        → shown (decode_from rate edges r) ≡ read (symbols rate r.fall edges) s) where
    follow :
        (t : List Annotation × Reading) (x : Symbol) (s : Reader) (fall : ℕ)
        → Agree t (step x s)
        → t.1.fall ≡ fall
        → shown t.0 ++ shown (decode_from rate edges t.1) ≡ read (x ∷ symbols rate fall edges) s
    follow t x s fall (same, kept) f =
        ap (λ out. out ++ shown (decode_from rate edges t.1)) same
        ∙ ap (λ later. (step x s).0 ++ later)
            (rest t.1 (step x s).1 kept ∙ ap (λ n. read (symbols rate n edges) (step x s).1) f)

    rise_lem :
        (r : Reading) (s : Reader)
        → r.dat ≡ e.dat
        → KeepsAs r s
        → shown (take_rise rate e r).0 ++ shown (decode_from rate edges (take_rise rate e r).1)
          ≡ read
              ((if leb (100 * rate) ((e.at - r.fall) * tick) then a_sync else level e.dat)
                ∷ symbols rate r.fall edges)
              s
    rise_lem r s same k =
        follow (take_rise rate e r) _ s r.fall
          (subst
            (λ d.
              Agree (take_rise rate e r)
                (step (if leb (100 * rate) ((e.at - r.fall) * tick) then a_sync else level d) s))
            same (rise_agrees e r s (omega (arith, same, binary)) k))
          (take_rise-fall e r)

    strobe_lem :
        (r : Reading) (s : Reader)
        → r.dat ≡ e.dat
        → KeepsAs r s
        → shown (take_strobe rate e r).0 ++ shown (decode_from rate edges (take_strobe rate e r).1)
          ≡ read (symbols rate r.fall (e ∷ edges)) s
    unfolding take_strobe
    strobe_lem r s same k = elim (Bool-cases e.matched_stb) [
      | inr still ↦ rw still (rest r s k)
      | inl moved ↦ elim (Bool-cases (e.stb == 0)) [
        | inl low ↦ rw (moved, low) (rest (record r { fall = e.at }) s k)
        | inr high ↦ simp (moved, high) (rise_lem r s same k)
      ]
    ]

  decode_from_lem :
      (edges : List Edge) (r : Reading) (s : Reader)
      → All (λ e. e.dat < 2) edges
      → KeepsAs r s
      → shown (decode_from rate edges r) ≡ read (symbols rate r.fall edges) s
  unfolding decode_from turn
  decode_from_lem [] r s binary k = refl
  decode_from_lem (e ∷ edges) r s (b, binary) k =
      let (m, same, quiet) = move_dat_lem e r in
      let moved : Reading = (move_dat rate e r).1 in
      let marks : List Annotation = (take_strobe rate e moved).0 in
      let later : List Annotation = decode_from rate edges (take_strobe rate e moved).1 in
      shown-append ((move_dat rate e r).0 ++ marks) later
      ∙ ap (λ out. out ++ shown later)
          (shown-append (move_dat rate e r).0 marks ∙ ap (λ out. out ++ shown marks) quiet)
      ∙ strobe_lem e edges b (λ r' s' k'. decode_from_lem edges r' s' binary k') moved s
          (ap (λ t. t.dat) same) (subst (λ t. KeepsAs t s) (sym same) k)
      ∙ ap (λ t. read (symbols rate t.fall (e ∷ edges)) s) same

no_rate : 0 < zero → ⊥
no_rate h = omega arith

-- The reader as the capture starts.
abbrev pub waiting : Reader
waiting = record { stage = outside; count = 0; value = 0 }

-- With a sample rate, of edges that leave DAT low or high: the lengths, bytes, checksums and
-- acknowledgements that the decoder shows, and the lengths that it warns of, are those that a
-- reader of the packet format finds in the syncs and bits on the wires, in order.
pub decode_lem :
    (rate : ℕ) (edges : List Edge)
    → 0 < rate
    → All (λ e. e.dat < 2) edges
    → (out : List Annotation) × (decode (some rate) edges ≡ some out)
      × (shown out ≡ read (symbols rate 0 edges) waiting)
unfolding decode
decode_lem zero edges set binary = elim (no_rate set) [ ]
decode_lem (suc rate) edges set binary = (
  decode_from (suc rate) edges at_start,
  refl,
  decode_from_lem (suc rate) edges at_start waiting binary refl,
)
