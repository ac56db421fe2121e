-- ===== src/Swd/Tests.antt =====
-- The theorems on the SWD host: a read of DPIDR, and a target that waits.
use protocol_emulator.Base.{if◌then◌else◌, ◌==◌, ℕ, suc, ◌+◌, ◌*◌, ◌≡◌, refl, arith, ok}
use protocol_emulator.Host.Device.{Device, device_port}
use protocol_emulator.Host.Registers.{status_reg}
use protocol_emulator.Host.Methods.{read_one, pop, status, push}
use protocol_emulator.Swd.{
  send, send_from, at_index, pop_some, push_some, request, Reading, read, read_until, polls,
}
use protocol_emulator.Swd.Request.{IsRequest, request_lem}
use protocol_emulator.Swd.Retry.{Ends, read_until-Ends}

request_lem_example : IsRequest (request 0 1 (4 * 1 + 8 * 0)) 0 1 1 0
request_lem_example = request_lem 0 1 1 0 (omega arith) (omega arith) (omega arith) (omega arith)

-- A target that answers every poll with OK and zeros, in three words that wait already.
abbrev pub willing : Device
willing = record {
  State = ℕ;
  put = λ reg w s. s;
  get = λ reg s. ((if reg == status_reg then 0xc00 else 1), suc s);
}

pub willing_reads :
    (s : ℕ) → (r : Reading) × ((t : ℕ) × (read (device_port willing) 0 4 s ≡ (ok r, t)))
unfolding read send send_from at_index pop_some push_some read_one pop status push
willing_reads s = (_, (_, refl))

read_until-Ends_example :
    Ends
      (device_port willing)
      0
      4
      (λ v. v == 9)
      polls
      0
      (read_until (device_port willing) 0 4 (λ v. v == 9) 0)
read_until-Ends_example = read_until-Ends (device_port willing) 0 4 (λ v. v == 9) willing_reads 0
