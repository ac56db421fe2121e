-- ===== src/Bridge/Tests.antt =====
-- The bridge's theorems with a target that answers every poll.
use protocol_emulator.Base.{◌≡◌, refl, none, List, [], ◌∷◌, ok, true, false}
use protocol_emulator.Host.Device.{device_port}
use protocol_emulator.Host.Port.{Port}
use protocol_emulator.Host.Config.{default_config}
use protocol_emulator.Bench.{Firmware}
use protocol_emulator.Swd.Tests.{willing}
use protocol_emulator.Bridge.{Op, unknown, run_op, handle, is_access}
use protocol_emulator.Bridge.Line.{Line}

abbrev port : Port
port = device_port willing

abbrev firmware : Firmware
firmware = record {
  config = default_config;
  words = [];
  certificate = [];
  loaded = none;
  single_edge = false;
  floor = false;
}

abbrev two_lines : List Op
two_lines = record { name = "r"; args = 0 ∷ 4 ∷ [] } ∷ record { name = "q"; args = [] } ∷ []

-- `name in "rw"` is a test for a part of the text.
access_test : is_access "rw" ≡ true
unfolding is_access
access_test = refl

unknown_test :
    handle port 5 firmware (record { name = "q"; args = [] } ∷ two_lines) 0
    ≡ (ok (unknown ∷ [], true), 0)
unfolding handle run_op
unknown_test = refl
