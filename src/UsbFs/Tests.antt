-- ===== src/UsbFs/Tests.antt =====
-- The theorems on the full speed device's board at a nine byte descriptor and one report.
use protocol_emulator.Base.{ℕ, ◌≤◌, ◌≡◌, refl, some, List, [], ◌∷◌, map, length, ok, err, Result}
use protocol_emulator.UsbBoard.Chunks.{host_reads}
use protocol_emulator.UsbFs.Packets.{
  data1, chunks, data_packet, handshake_record, record_of, numbered,
}
use protocol_emulator.Base.Slices.{pieces}
use protocol_emulator.UsbFs.Records.{
  Descriptors, Layout, layout, find, all_packets, lay_out, handshakes,
}
use protocol_emulator.UsbFs.Board.{new_board, feed_all}
use protocol_emulator.UsbFs.Keys.{Keeps}
use protocol_emulator.UsbFs.Places.{IsPlaced}
use protocol_emulator.UsbFs.Control.{payload, Alternates, chunks-read}
use protocol_emulator.UsbFs.Start.{feed_all_lem, layout-IsPlaced}

abbrev nine : List ℕ
nine = 9 ∷ 2 ∷ 3 ∷ 4 ∷ 5 ∷ 6 ∷ 7 ∷ 8 ∷ 1 ∷ []

chunks-read_example :
    (host_reads 18 (map payload (chunks nine 18)) ≡ some nine) × Alternates data1 (chunks nine 18)
chunks-read_example = chunks-read 18 nine

abbrev descriptors : Descriptors
descriptors = ((1, 0), nine) ∷ []

abbrev reports : List (List ℕ)
reports = (3 ∷ 4 ∷ []) ∷ []

abbrev layout_or_empty : Result Layout → Layout
layout_or_empty (ok made) = made
layout_or_empty (err _) = record { records = []; certificate_base = 0; memory = [] }

abbrev made : Layout
made = layout_or_empty (layout descriptors reports (0x1e ∷ 6 ∷ []))

made_ok : layout descriptors reports (0x1e ∷ 6 ∷ []) ≡ ok made
unfolding layout lay_out all_packets handshakes find record_of chunks numbered data_packet
    handshake_record pieces
made_ok = refl

feed_all_lem_example : Keeps (feed_all (0x4b ∷ 3 ∷ []) (new_board descriptors reports made))
feed_all_lem_example = feed_all_lem descriptors reports (0x1e ∷ 6 ∷ []) (0x4b ∷ 3 ∷ []) made made_ok

report_place : find made.records (data_packet data1 (3 ∷ 4 ∷ [])) ≡ some 45
unfolding layout lay_out all_packets handshakes find record_of chunks numbered data_packet
    handshake_record pieces
report_place = refl

layout-IsPlaced_example :
    IsPlaced made.memory (data_packet data1 (3 ∷ 4 ∷ []), 45) × (length made.memory ≤ 512)
layout-IsPlaced_example =
    layout-IsPlaced descriptors reports (0x1e ∷ 6 ∷ []) (data_packet data1 (3 ∷ 4 ∷ [])) made 45
      made_ok report_place
