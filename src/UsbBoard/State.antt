-- ===== src/UsbBoard/State.antt =====
-- python/usb_board.py: the state of `Board`, and what its constructor and a bus reset set.
use protocol_emulator.Base.{ℕ, Bool, false, Option, none, some, List, []}
use protocol_emulator.UsbBoard.Packets.{data0, data1}

-- `queued` holds (endpoint, words) of each reply that the core has not answered for, oldest first;
-- the last of them are also in `replies`, not yet written to the tx fifo.
pub record Board : Type 0 where
  pub descriptors : List (ℕ × List ℕ)
  pub loaded : Option ℕ
  pub setups : ℕ
  pub address : ℕ
  pub configured : Bool
  pub described : Bool
  pub expect : ℕ
  pub tag : Option ℕ
  pub words : List ℕ
  pub chunks : List (List ℕ)
  pub toggle : ℕ
  pub report_toggle : ℕ
  pub replies : List (List ℕ)
  pub queued : List (ℕ × List ℕ)
  pub new_address : Option ℕ
  pub reload : Option ℕ
  pub pending_report : Option (List ℕ)
  pub dropped : Bool

-- What `reset` sets, over what it leaves.
unfoldable pub reset : Board → Board
reset b = record {
  descriptors = b.descriptors;
  loaded = b.loaded;
  setups = b.setups;
  address = 0;
  configured = false;
  described = false;
  expect = 0;
  tag = none;
  words = [];
  chunks = [];
  toggle = data1;
  report_toggle = data0;
  replies = [];
  queued = [];
  new_address = none;
  reload = some 0;
  pending_report = none;
  dropped = false;
}

-- `Board(descriptors)`
unfoldable pub new_board : List (ℕ × List ℕ) → Board
new_board descriptors = record {
  descriptors = descriptors;
  loaded = none;
  setups = 0;
  address = 0;
  configured = false;
  described = false;
  expect = 0;
  tag = none;
  words = [];
  chunks = [];
  toggle = data1;
  report_toggle = data0;
  replies = [];
  queued = [];
  new_address = none;
  reload = some 0;
  pending_report = none;
  dropped = false;
}
