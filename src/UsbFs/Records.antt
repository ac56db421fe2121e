-- ===== src/UsbFs/Records.antt =====
-- python/usb_fs_board.py: `Board.__init__`, which lays the records out in the data memory.
use protocol_emulator.Base.{
  ℕ, suc, Bool, true, false, ◌&&◌, Option, none, some, List, [], ◌∷◌, ◌++◌, length, replicate, set,
  ltb, ◌==◌, if◌then◌else◌, Result, ok, err, value_error,
}
use protocol_emulator.UsbFs.Packets.{
  data0, data1, ack, nak, lengths, data_packet, stall_packet, handshake_record, record_of, chunks,
}

-- usb_fs_device_firmware.py
abbrev pub nak_record : ℕ
nak_record = 16

abbrev pub ack_record : ℕ
ack_record = 18

abbrev pub first_record : ℕ
first_record = 20

-- `descriptors`: the bytes of (type, index).
abbrev pub Descriptors : Type 0
Descriptors = List ((ℕ × ℕ) × List ℕ)

-- Whether two packets are one key, as `bytes(packet)` is.
unfoldable pub same : List ℕ → List ℕ → Bool
same [] [] = true
same [] (_ ∷ _) = false
same (_ ∷ _) [] = false
same (x ∷ xs) (y ∷ ys) = (x == y) && same xs ys

-- `records`: where the record of each packet lies.
abbrev pub Records : Type 0
Records = List (List ℕ × ℕ)

-- `self.records[bytes(packet)]`, none where a `KeyError` is.
unfoldable pub find : Records → List ℕ → Option ℕ
unfolding same
find [] packet = none
find ((key, at) ∷ records) packet = if same key packet then some at else find records packet

-- The packets of one descriptor: for each length of LENGTHS, and its own.
unfoldable pub descriptor_packets : List ℕ → List ℕ → List (List ℕ)
descriptor_packets bytes [] = chunks bytes (length bytes)
descriptor_packets bytes (asked ∷ rest) = chunks bytes asked ++ descriptor_packets bytes rest

unfoldable pub all_descriptor_packets : Descriptors → List (List ℕ)
unfolding descriptor_packets
all_descriptor_packets [] = []
all_descriptor_packets ((_, bytes) ∷ descriptors) =
    descriptor_packets bytes lengths ++ all_descriptor_packets descriptors

unfoldable pub report_packets : List (List ℕ) → List (List ℕ)
report_packets [] = []
report_packets (payload ∷ reports) =
    data_packet data0 payload ∷ data_packet data1 payload ∷ report_packets reports

-- `packets`
unfoldable pub all_packets : Descriptors → List (List ℕ) → List (List ℕ)
unfolding all_descriptor_packets report_packets
all_packets descriptors reports =
    (data_packet data1 []
      ∷ data_packet data0 []
      ∷ stall_packet
      ∷ all_descriptor_packets descriptors)
    ++ report_packets reports

-- `memory[at:at + 2] = ...`, of two words.
unfoldable pub set_pair : List ℕ → ℕ → List ℕ → List ℕ
set_pair memory at (a ∷ b ∷ []) = set (set memory at a) (suc at) b
set_pair memory at _ = memory

unfoldable pub handshakes : List ℕ
unfolding set_pair handshake_record
handshakes =
    set_pair (set_pair (replicate first_record 0) nak_record (handshake_record nak)) ack_record
      (handshake_record ack)

-- The loop over `packets`; a record goes behind the memory so far.
unfoldable pub lay_out : List (List ℕ) → Records → List ℕ → Records × List ℕ
lay_out [] records memory = (records, memory)
lay_out (packet ∷ packets) records memory = elim (find records packet) [
  | some _ ↦ lay_out packets records memory
  | none ↦ lay_out packets (records ++ (packet, length memory) ∷ []) (memory ++ record_of packet)
]

-- What the constructor works out: the records, the certificate's place and the memory.
pub record Layout : Type 0 where
  pub records : Records
  pub certificate_base : ℕ
  pub memory : List ℕ

unfoldable pub layout : Descriptors → List (List ℕ) → List ℕ → Result Layout
unfolding lay_out
layout descriptors reports certificate =
    let (records, memory) = lay_out (all_packets descriptors reports) [] handshakes in
    if ltb 512 (length (memory ++ certificate))
    then err value_error
    else ok record {
      records = records;
      certificate_base = length memory;
      memory = memory ++ certificate;
    }
