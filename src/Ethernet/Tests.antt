-- ===== src/Ethernet/Tests.antt =====
-- The theorems on Ethernet frames at short payloads.
use protocol_emulator.Base.{ℕ, ◌≡◌, [], ◌∷◌, ◌++◌, arith}
use protocol_emulator.Ethernet.{ip_header, ip_checksum, word_sum, halves, preamble}
use protocol_emulator.Ethernet.Line.{sampled_bytes, halves_lem}

abbrev tested_sum : ℕ
tested_sum =
    word_sum
      (ip_header (10 ∷ 0 ∷ 0 ∷ 2 ∷ []) 13 (ip_checksum (ip_header (10 ∷ 0 ∷ 0 ∷ 2 ∷ []) 13 0)))

halves_lem_example : sampled_bytes 10 (halves (0xff ∷ 3 ∷ []) 6) ≡ preamble ++ 0xff ∷ 3 ∷ []
halves_lem_example = halves_lem (0xff ∷ 3 ∷ []) 6 (omega arith, (omega arith, tt))
