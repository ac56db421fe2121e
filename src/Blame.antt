-- ===== src/Blame.antt =====
-- python/board_blame.py: the words of an I2C master, and which releases of SCL they make. The rise
-- times are floating point and are left out.
pub mod Releases
pub mod Tests
use protocol_emulator.Base.{
  ℕ, zero, suc, ◌+◌, Bool, true, false, ◌&&◌, not, Option, none, some, List, [], ◌∷◌, ◌++◌, bit_and,
  bit_or, replicate, int, ◌==◌, if◌then◌else◌,
}
use protocol_emulator.Base.Bits.{shr, shl}

-- The names of the edges in the comments of i2c_master_marked.asm.
pub data Edge : Type 0 where
  at_restart at_read_bit at_sent_ack at_write_bit at_ack at_stop : Edge

unfoldable pub i2c_word : ℕ → Bool → Bool → Bool → ℕ
i2c_word byte start read stop =
    bit_or (bit_or (bit_or (shl (int start) 15) (shl (int read) 14)) (shl byte 6))
      (shl (int stop) 5)

-- A bit of a word, as a test.
abbrev pub bit_of : ℕ → ℕ → Bool
bit_of w n = not (bit_and (shr w n) 1 == 0)

-- The edges of a word, as the bus is idle before it or not.
unfoldable pub word_edges : ℕ → Bool → List Edge
word_edges w idle =
    (if bit_of w 15 && not idle then at_restart ∷ [] else [])
    ++ (if bit_of w 14
        then replicate 8 at_read_bit ++ at_sent_ack ∷ []
        else replicate 8 at_write_bit ++ at_ack ∷ [])
    ++ (if bit_of w 5 then at_stop ∷ [] else [])

unfoldable pub release_edges : List ℕ → Bool → List Edge
unfolding word_edges
release_edges [] idle = []
release_edges (w ∷ words) idle = word_edges w idle ++ release_edges words (bit_of w 5)

-- A pc for each edge; an edge without one is a `KeyError`.
unfoldable pub pcs_of : (Edge → Option ℕ) → List Edge → Option (List ℕ)
pcs_of pc_of [] = some []
pcs_of pc_of (edge ∷ edges) = elim (pc_of edge) [
  | none ↦ none
  | some pc ↦ elim (pcs_of pc_of edges) [ none ↦ none | some pcs ↦ some (pc ∷ pcs) ]
]

unfoldable pub release_pcs : List ℕ → (Edge → Option ℕ) → Option (List ℕ)
unfolding release_edges pcs_of
release_pcs words pc_of = pcs_of pc_of (release_edges words true)
