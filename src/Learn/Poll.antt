-- ===== src/Learn/Poll.antt =====
-- `poll` against the chip: two engines, each with the stamps that wait, behind the SPI slave of
-- Host/Device (src/host_port.ml: the rx level in bits 10 to 13 of the status).
use protocol_emulator.Base.{
  ℕ, zero, suc, ◌*◌, ◌%◌, ◌/◌, ◌≤◌, ◌<◌, ◌≡◌, refl, sym, ap, List, [], ◌∷◌, All, length, drop,
  replicate, arith, ◌==◌, if◌then◌else◌, bit_and, true, Bool-cases, inl, inr,
}
use mathlib.Core.Path.{fun_ext}
use protocol_emulator.Base.Bits.{shr, bit_or-high_byte, bit_and-15}
use protocol_emulator.Host.Registers.{status_reg, rx_reg, now_lo, select_reg}
use protocol_emulator.Host.Port.{read_frame}
use protocol_emulator.Host.Device.{Device, get_all, give_words, take_words, exchange, serve, IsWide}
use protocol_emulator.Learn.{Pico, pairs, poll, pop_level, select_frame}

pub record Chip : Type 0 where
  pub selected : ℕ
  pub waiting : ℕ → List ℕ
  pub cycle : ℕ

abbrev head_or_zero : List ℕ → ℕ
head_or_zero [] = 0
head_or_zero (w ∷ _) = w % 65536

abbrev pub update : (ℕ → List ℕ) → ℕ → List ℕ → ℕ → List ℕ
update f i v j = if j == i then v else f j

abbrev popped : Chip → Chip
popped c = record c { waiting = update c.waiting c.selected (drop 1 (c.waiting c.selected)) }

abbrev pub chip : Device
chip = record {
  State = Chip;
  put = λ reg w c. if reg == select_reg then record c { selected = w } else c;
  get = λ reg c.
      if reg == status_reg
      then (length (c.waiting c.selected) % 16 * 1024, c)
      else if reg == rx_reg
      then (head_or_zero (c.waiting c.selected), popped c)
      else if reg == now_lo
      then (c.cycle % 65536, c)
      else (0, c);
}

-- A Pico at the chip's port; how its own clock runs does not matter to `poll`.
abbrev pub at_chip : (Chip → ℕ × Chip) → (Chip → ℕ × Chip) → Pico
at_chip ms us = record {
  State = Chip;
  transfer = (serve chip).transfer;
  ticks_ms = ms;
  ticks_us = us;
}

==→≡ : (a b : ℕ) → (a == b) ≡ true → a ≡ b
==→≡ a b h = ground arith

chip-IsWide : IsWide chip
chip-IsWide reg c = elim (Bool-cases (reg == status_reg)) [
  | inl e ↦ rw e (omega arith)
  | inr e ↦ rw e (elim (Bool-cases (reg == rx_reg)) [
    | inl f ↦ rw f (wide_head (c.waiting c.selected))
    | inr f ↦ rw f (elim (Bool-cases (reg == now_lo)) [
      | inl g ↦ rw g (omega arith)
      | inr g ↦ rw g (omega arith)
    ])
  ])
]
  where
    wide_head : (ws : List ℕ) → head_or_zero ws < 65536
    wide_head [] = omega arith
    wide_head (w ∷ _) = omega arith

module _ (D : Device) where
  pairs-give_words :
      (reg n : ℕ) (s : D.State)
      → IsWide D
      → (pairs (give_words D reg (replicate (2 * n) 0) s).0 ≡ (get_all D reg n s).0)
        × ((give_words D reg (replicate (2 * n) 0) s).1 ≡ (get_all D reg n s).1)
  unfolding pairs give_words
  pairs-give_words reg zero s wide = (refl, refl)
  pairs-give_words reg (suc n) s wide =
      let e : 2 * suc n ≡ suc (suc (2 * n)) = omega arith in
      let (w, t) = D.get reg s in
      rw e (
        ground (
          arith,
          wide reg s,
          bit_or-high_byte (w / 256) (w % 256) (omega arith),
          pairs-give_words reg n t wide,
        ))

update_self : (f : ℕ → List ℕ) (i : ℕ) → update f i (f i) ≡ f
update_self f i =
    fun_ext (λ j. elim (Bool-cases (j == i)) [
      | inl e ↦ rw e (ap f (sym (==→≡ j i e)))
      | inr e ↦ rw e refl
    ])

update_twice : (f : ℕ → List ℕ) (i : ℕ) (v w : List ℕ) → update (update f i v) i w ≡ update f i w
update_twice f i v w =
    fun_ext (λ j. elim (Bool-cases (j == i)) [ inl e ↦ rw e refl | inr e ↦ rw e refl ])

-- Once every waiting word was taken.
waiting-popped :
    (f : ℕ → List ℕ) (i k : ℕ) (ws : List ℕ)
    → All (λ w. w < 65536) ws
    → get_all chip rx_reg (length ws) (record { selected = i; waiting = update f i ws; cycle = k })
      ≡ (ws, record { selected = i; waiting = update f i []; cycle = k })
waiting-popped f i k [] h = refl
waiting-popped f i k (w ∷ ws) h =
    ground (arith, update_twice f i (w ∷ ws) ws, waiting-popped f i k ws)

level_lem : (n : ℕ) → n ≤ 15 → bit_and (shr (n % 16 * 1024 / 256) 2) 15 ≡ n
level_lem n h = omega (arith, bit_and-15 (n % 16 * 1024 / 256 / 4))

ask_rx :
    (n : ℕ) (c : Chip)
    → exchange chip (read_frame rx_reg n) c ≡ (
      0 ∷ (give_words chip rx_reg (replicate (2 * n) 0) c).0,
      (give_words chip rx_reg (replicate (2 * n) 0) c).1,
    )
unfolding exchange read_frame
ask_rx n c = refl

ask_select : (e : ℕ) (c : Chip) → (exchange chip (select_frame e) c).1 ≡ record c { selected = e }
unfolding exchange select_frame take_words
ask_select e c = ground arith

ask_status :
    (c : Chip)
    → exchange chip (read_frame status_reg 1) c ≡ (
      0
          ∷ (length (c.waiting c.selected) % 16 * 1024 / 256)
          ∷ (length (c.waiting c.selected) % 16 * 1024 % 256)
          ∷ [],
      c,
    )
unfolding exchange read_frame give_words
ask_status c = refl

ask_now :
    (c : Chip)
    → exchange chip (read_frame now_lo 1) c
      ≡ (0 ∷ (c.cycle % 65536 / 256) ∷ (c.cycle % 65536 % 256) ∷ [], c)
unfolding exchange read_frame give_words
ask_now c = refl

now_lem : (k : ℕ) → pairs ((k % 65536 / 256) ∷ (k % 65536 % 256) ∷ []) ≡ k % 65536 ∷ []
unfolding pairs
now_lem k = ground (arith, bit_or-high_byte (k % 65536 / 256) (k % 65536 % 256))

module _ (ms us : Chip → ℕ × Chip) where
  pop_level_lem :
      (f : ℕ → List ℕ) (i k : ℕ) (ws : List ℕ)
      → All (λ w. w < 65536) ws
      → pop_level
          (at_chip ms us)
          (length ws)
          (record { selected = i; waiting = update f i ws; cycle = k })
        ≡ (ws, record { selected = i; waiting = update f i []; cycle = k })
  unfolding pop_level
  pop_level_lem f i k [] h = refl
  pop_level_lem f i k (w ∷ ws) h =
      let c : Chip = record { selected = i; waiting = update f i (w ∷ ws); cycle = k } in
      let n = length (w ∷ ws) in
      ground (
        arith,
        ask_rx n c,
        pairs-give_words chip rx_reg n c chip-IsWide,
        waiting-popped f i k (w ∷ ws) h,
      )

  -- Of an engine with fifteen waiting words at most, each of 16 bits: `poll` gives all of them in
  -- order and the low half of the clock, takes them and no others, and leaves that engine
  -- selected.
  pub poll_lem :
      (c : Chip) (engine : ℕ)
      → length (c.waiting engine) ≤ 15
      → All (λ w. w < 65536) (c.waiting engine)
      → poll (at_chip ms us) engine c ≡ (
        (c.waiting engine, c.cycle % 65536),
        record c { selected = engine; waiting = update c.waiting engine [] },
      )
  unfolding poll
  poll_lem c engine h w =
      let d = record c { selected = engine } in
      let e = record c { selected = engine; waiting = update c.waiting engine [] } in
      ground (
        arith,
        ask_select engine c,
        ask_status d,
        level_lem (length (c.waiting engine)) h,
        update_self c.waiting engine,
        pop_level_lem c.waiting engine c.cycle (c.waiting engine) w,
        ask_now e,
        now_lem c.cycle,
      )
