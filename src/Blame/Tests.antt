-- ===== src/Blame/Tests.antt =====
-- The theorem on a write of an address and a byte.
use protocol_emulator.Base.{ℕ, ◌≡◌, true, false, Option, none, some, List, [], ◌∷◌, map, arith}
use protocol_emulator.Blame.{Edge, at_restart, at_ack, at_write_bit, at_stop, release_pcs, pcs_of}
use protocol_emulator.Blame.Releases.{Transfer, word_of, edges_of, release_pcs_lem}

abbrev transfers : List Transfer
transfers =
    record { byte = 0xa0; starts = true; reads = false; stops = false }
    ∷ record { byte = 0x5a; starts = true; reads = true; stops = true }
    ∷ []

abbrev pc_of : Edge → Option ℕ
pc_of at_restart = some 3
pc_of at_write_bit = some 9
pc_of at_ack = some 14
pc_of at_stop = some 30
pc_of _ = none

release_pcs_lem_example :
    release_pcs (map word_of transfers) pc_of ≡ pcs_of pc_of (edges_of transfers true)
release_pcs_lem_example = release_pcs_lem transfers pc_of (omega arith, (omega arith, tt))
