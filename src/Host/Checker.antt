-- ===== src/Host/Checker.antt =====
-- `Host.certify` and `Host.check` against a chip that walks the certificate in its data memory.
use protocol_emulator.Base.{
  ℕ, zero, suc, ◌+◌, ◌*◌, ◌<◌, ◌≡◌, refl, Bool, true, false, Option, none, some, List, [], ◌∷◌,
  arith, ok, err, Result, pure, refused, int, ◌==◌, if◌then◌else◌, bit_and,
}
use protocol_emulator.Host.Registers.{
  data_addr, data_reg, check_base, check_loaded, check_flags, check_status, control_reg, reject_pc,
  reject_reason,
}
use protocol_emulator.Host.Config.{check_writes, loaded_or_zero, is_given}
use protocol_emulator.Host.Device.{Device, put_all, device_port}
use protocol_emulator.Host.Methods.{write_all, settle, check, certify, reject}
use protocol_emulator.Host.Memory.{Memory, store_word, store}

pub record Verdict : Type 0 where
  pub accepts : Bool
  pub at : ℕ
  pub why : ℕ

-- What a walk starts from: the data memory and the three check registers.
pub record Request : Type 0 where
  pub memory : Memory
  pub base : ℕ
  pub loaded : ℕ
  pub flags : ℕ

-- `left` is how many reads of CHECK_STATUS still find the walk busy.
pub record Walk : Type 0 where
  pub request : Request
  pub open request use *
  pub left : ℕ
  pub verdict : Verdict

module _ (judge : Request → Verdict) (reads : Request → ℕ) where
  abbrev begin : Walk → Walk
  begin s = record s { left = reads s.request; verdict = judge s.request }

  abbrev put_register : ℕ → ℕ → Walk → Walk
  put_register reg w s =
      if reg == data_addr
      then record s { request = record request { memory = record memory { pointer = w } } }
      else if reg == data_reg
      then record s { request = record request { memory = store_word w memory } }
      else if reg == check_base
      then record s { request = record request { base = w } }
      else if reg == check_loaded
      then record s { request = record request { loaded = w } }
      else if reg == check_flags
      then record s { request = record request { flags = w } }
      else if reg == control_reg
      then (if w == 0x10 then begin s else s)
      else s
    where
      open s use {request, memory}

  abbrev poll : ℕ → Walk → ℕ × Walk
  poll zero s = (if s.verdict.accepts then 4 else 0, s)
  poll (suc n) s = (1, record s { left = n })

  abbrev get_register : ℕ → Walk → ℕ × Walk
  get_register reg s =
      if reg == check_status
      then poll s.left s
      else if reg == reject_pc
      then (s.verdict.at, s)
      else if reg == reject_reason
      then (s.verdict.why, s)
      else (0, s)

  abbrev pub checker : Device
  checker = record { State = Walk; put = put_register; get = get_register }

  -- The writes of `check` put the three registers in place and begin the walk.
  abbrev pub flags_of : Option ℕ → Bool → Bool → ℕ
  flags_of loaded single_edge floor = int (is_given loaded) + 2 * int single_edge + 4 * int floor

  abbrev pub asked : ℕ → Option ℕ → Bool → Bool → Memory → Request
  asked base loaded single_edge floor memory = record {
    memory = memory;
    base = base;
    loaded = loaded_or_zero loaded;
    flags = flags_of loaded single_edge floor;
  }

  begun : Request → Walk
  begun r = record { request = r; left = reads r; verdict = judge r }

  write_all-check_writes :
      (base : ℕ) (loaded : Option ℕ) (single_edge floor : Bool) (s : Walk)
      → write_all (device_port checker) (check_writes base loaded single_edge floor) s
        ≡ (ok tt, begun (asked base loaded single_edge floor s.memory))
  unfolding write_all check_writes begun
  write_all-check_writes base none true true s = refl
  write_all-check_writes base none true false s = refl
  write_all-check_writes base none false true s = refl
  write_all-check_writes base none false false s = refl
  write_all-check_writes base (some p) true true s = refl
  write_all-check_writes base (some p) true false s = refl
  write_all-check_writes base (some p) false true s = refl
  write_all-check_writes base (some p) false false s = refl

  abbrev answer : Bool → ℕ
  answer accepts = if accepts then 4 else 0

  settle_done :
      (fuel : ℕ) (accepts : Bool) (s : Walk)
      → settle (device_port checker) (suc fuel) (answer accepts) s ≡ (ok (answer accepts), s)
  unfolding settle
  settle_done fuel true s = refl
  settle_done fuel false s = refl

  -- The loop ends with the verdict once the walk's last busy read is past.
  settle_busy :
      (fuel left : ℕ) (s : Walk)
      → left < fuel
      → settle (device_port checker) (suc fuel) 1 (record s { left = left })
        ≡ (ok (answer s.verdict.accepts), record s { left = 0 })
  unfolding settle
  settle_busy zero left s h = absurd (omega arith)
  settle_busy (suc fuel) zero s h = settle_done fuel s.verdict.accepts (record s { left = 0 })
  settle_busy (suc fuel) (suc left) s h = settle_busy fuel left s (omega arith)

  -- The first read and the loop together.
  settled :
      (fuel left : ℕ) (s : Walk)
      → left < fuel
      → let (first, t) = poll left (record s { left = left }) in
        settle (device_port checker) (suc fuel) first t
        ≡ (ok (answer s.verdict.accepts), record s { left = 0 })
  settled fuel zero s h = settle_done fuel s.verdict.accepts (record s { left = 0 })
  settled fuel (suc left) s h = settle_busy fuel left s (omega arith)

  abbrev pub outcome : Verdict → Result (Unit {0})
  outcome v = if v.accepts then ok tt else err (refused v.at v.why)

  conclude :
      (accepts : Bool) (at why left : ℕ) (r : Request)
      → let s : Walk = record {
        request = r;
        left = left;
        verdict = record { accepts = accepts; at = at; why = why };
      } in
        (if bit_and (answer accepts) 4 == 0 then reject (device_port checker) else pure tt) s
        ≡ (outcome s.verdict, s)
  unfolding reject
  conclude true at why left r = refl
  conclude false at why left r = refl

  -- With more fuel than the walk takes reads, `check` ends with the walk's verdict on what its
  -- arguments ask: it returns exactly if the chip accepts, and else raises `Refused` with the
  -- chip's pc and reason.
  pub check_lem :
      (fuel base : ℕ) (loaded : Option ℕ) (single_edge floor : Bool) (s : Walk)
      → reads (asked base loaded single_edge floor s.memory) < fuel
      → check (device_port checker) (suc fuel) base loaded single_edge floor s ≡ (
          let r = asked base loaded single_edge floor s.memory in
          (outcome (judge r), record { request = r; left = 0; verdict = judge r }))
  unfolding check begun
  check_lem fuel base loaded single_edge floor s h =
      let r = asked base loaded single_edge floor s.memory in
      let v = judge r in
      ground (
        arith,
        write_all-check_writes base loaded single_edge floor s,
        settled fuel (reads r) (begun r) h,
        conclude v.accepts v.at v.why 0 r,
      )

  put_all-store :
      (words : List ℕ) (s : Walk)
      → put_all checker data_reg words s
        ≡ record s { request = record (s.request) { memory = store words s.memory } }
  put_all-store [] s = refl
  put_all-store (w ∷ words) s =
      put_all-store words
        (record s { request = record (s.request) { memory = store_word w s.memory } })

  -- With more fuel than the walk takes reads, `certify` has the chip judge its program against the
  -- certificate that it wrote at `base`, with the flags that say which assumptions were given, and
  -- ends with that verdict.
  pub certify_lem :
      (fuel : ℕ) (certificate : List ℕ) (base : ℕ) (loaded : Option ℕ) (single_edge floor : Bool)
      (s : Walk)
      → reads (
          asked base loaded single_edge floor
            (store certificate (record (s.memory) { pointer = base })))
        < fuel
      → certify (device_port checker) (suc fuel) certificate base loaded single_edge floor s ≡ (
          let r =
            asked base loaded single_edge floor
              (store certificate (record (s.memory) { pointer = base })) in
          (outcome (judge r), record { request = r; left = 0; verdict = judge r }))
  unfolding certify
  certify_lem fuel certificate base loaded single_edge floor s h =
      let t : Walk = record s {
        request = record (s.request) { memory = record (s.memory) { pointer = base } };
      } in
      rw (put_all-store certificate t, certify)
        (check_lem fuel base loaded single_edge floor
          (record t { request = record (t.request) { memory = store certificate t.memory } }) h)
