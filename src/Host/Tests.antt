-- ===== src/Host/Tests.antt =====
-- The theorems on `Host` at concrete devices and values.
use protocol_emulator.Base.{
  List, All, ℕ, suc, ◌+◌, ◌*◌, ◌%◌, ◌<◌, ◌≡◌, true, false, none, some, [], ◌∷◌, ◌++◌, arith, ok,
  err, refused, take, drop, length, replicate, if◌then◌else◌, ltb, ◌-◌,
}
use protocol_emulator.Host.Port.{host}
use protocol_emulator.Host.Config.{default_config, config_fields}
use protocol_emulator.Host.Methods.{load, configure, now, check, certify, edge_stamps, pop}
use protocol_emulator.Host.Device.{Device, serve, device_port}
use protocol_emulator.Host.Framing.{port-serve}
use protocol_emulator.Host.Memory.{
  Memory, program_memory, register_file, configured, store, load_program, configure_registers,
}
use protocol_emulator.Host.Clock.{clock, IsPaced, now_exact}
use protocol_emulator.Host.Checker.{Walk, Request, Verdict, checker, asked, check_lem, certify_lem}
use protocol_emulator.Host.Stamps.{Queue, stamp_queue, edge_stamps_lem}
use protocol_emulator.Host.Fifo.{Fifos, fifos, IsWithin, poll, pop_lem}

abbrev empty_memory : Memory
empty_memory = record { pointer = 5; cell = λ _. 7 }

load_program_example :
    (load (device_port program_memory) (0xe004 ∷ 0x80c5 ∷ []) 3 empty_memory).1.cell 4 ≡ 0x80c5
load_program_example =
    load_program (0xe004 ∷ 0x80c5 ∷ []) 3 4 empty_memory (omega arith) (omega arith)

configure_registers_example :
    (configure (device_port register_file) default_config (λ _. 9)).1 17
    ≡ (if ltb 17 16 then 9 else configured default_config config_fields (17 - 16) 9)
configure_registers_example = configure_registers default_config (λ _. 9) 17

-- A device whose registers count the reads, as a byte.
abbrev counter : Device
counter = record { State = ℕ; put = λ reg w s. w; get = λ reg s. (s % 256, suc s) }

port-serve_example :
    ((count s : ℕ) → (host (serve counter)).read 4 count s ≡ (device_port counter).read 4 count s)
    × ((words : List ℕ) (s : ℕ)
        → All (λ w. w < 65536) words
        → (host (serve counter)).write 4 words s ≡ (device_port counter).write 4 words s)
port-serve_example = port-serve counter 4 (omega arith) (λ reg s. omega arith)

-- A clock that moves on by 100 between two reads.
abbrev steady : ℕ → ℕ
steady k = 65500 + 100 * k

steady-IsPaced : IsPaced steady
steady-IsPaced = record { ordered = λ k. omega arith; paced = λ k. omega arith }

now_exact_example :
    (j : ℕ) × (0 < j)
    × (j < 0 + 4)
    × (now (device_port (clock steady)) 3 0 ≡ (ok (steady j % 16777216), suc (suc j)))
now_exact_example = now_exact steady steady-IsPaced 1 0

-- A chip that rejects what starts at an odd base, after four reads.
abbrev odd_base : Request → Verdict
odd_base r = record { accepts = if ltb 0 (r.base % 2) then false else true; at = 12; why = 3 }

abbrev walk : Walk
walk = record {
  request = record { memory = empty_memory; base = 0; loaded = 0; flags = 0 };
  left = 0;
  verdict = odd_base (record { memory = empty_memory; base = 0; loaded = 0; flags = 0 });
}

check_lem_example :
    check (device_port (checker odd_base (λ _. 4))) 6 33 (some 32) true false walk ≡ (
      let r = asked odd_base (λ _. 4) 33 (some 32) true false empty_memory in
      (err (refused 12 3), record { request = r; left = 0; verdict = odd_base r }))
check_lem_example = check_lem odd_base (λ _. 4) 5 33 (some 32) true false walk (omega arith)

certify_lem_example :
    certify (device_port (checker odd_base (λ _. 4))) 6 (7 ∷ 8 ∷ []) 32 none true false walk ≡ (
      let r =
        asked odd_base
          (λ _. 4)
          32
          none
          true
          false
          (store (7 ∷ 8 ∷ []) (record empty_memory { pointer = 32 })) in
      (ok tt, record { request = r; left = 0; verdict = odd_base r }))
certify_lem_example =
    certify_lem odd_base (λ _. 4) 5 (7 ∷ 8 ∷ []) 32 none true false walk (omega arith)

abbrev two_stamps : Queue
two_stamps = record { stamps = (70000, 65537) ∷ (3, 2) ∷ []; lost = true }

edge_stamps_lem_example :
    edge_stamps (device_port stamp_queue) 3 two_stamps
    ≡ (ok (two_stamps.stamps, true), record two_stamps { stamps = [] })
edge_stamps_lem_example =
    edge_stamps_lem 3 two_stamps (omega arith) (omega arith) ((omega arith), ((omega arith), tt))

abbrev waiting : Fifos
waiting = record { tx = 4 ∷ []; rx = 1 ∷ 2 ∷ []; low = 1; high = 0; lost = false; turn = 0 }

waiting-IsWithin : IsWithin waiting
waiting-IsWithin = record { low_bits = omega arith; tx_depth = omega arith; rx_depth = omega arith }

pop_lem_example : pop (device_port (fifos (λ w. w + 1) (λ _. 1))) 4 waiting ≡ (
    let t = poll (λ w. w + 1) (λ _. 1) waiting in
    (ok (take 4 t.rx ++ replicate (4 - length t.rx) 0), record t { rx = drop 4 t.rx }))
pop_lem_example = pop_lem (λ w. w + 1) (λ _. 1) 4 waiting waiting-IsWithin
