-- ===== src/UsbFs/Places.antt =====
-- What `lay_out` leaves: each packet has a place, and its record is there in the memory.
use protocol_emulator.Base.{
  ℕ, ◌≡◌, refl, ◌∙◌, ap, sym, true, none, some, List, [], ◌∷◌, ◌++◌, append_assoc, append-nil,
  arith, length, All, All-append, ◌==◌, Bool-cases, Option-cases, inl, inr,
}
use protocol_emulator.UsbFs.Packets.{record_of}
use protocol_emulator.UsbFs.Records.{Records, same, find, lay_out}
use protocol_emulator.UsbFs.Keys.{Knows}

same_refl : (packet : List ℕ) → same packet packet ≡ true
unfolding same
same_refl [] = refl
same_refl (x ∷ packet) = let e : (x == x) ≡ true = ground arith in rw e (same_refl packet)

find-append :
    (records more : Records) (packet : List ℕ) (at : ℕ)
    → find records packet ≡ some at
    → find (records ++ more) packet ≡ some at
unfolding find
find-append [] more packet at e = elim (clash e) [ ]
  where
    clash : find [] packet ≡ some at → ⊥
    clash e = ground arith
find-append ((key, place) ∷ records) more packet at e = elim (Bool-cases (same key packet)) [
  | inl s ↦ ground (arith, e, s)
  | inr s ↦ rw s (find-append records more packet at (ground (arith, e, s)))
]

find-last :
    (records : Records) (packet : List ℕ) (at : ℕ)
    → find records packet ≡ none
    → find (records ++ (packet, at) ∷ []) packet ≡ some at
unfolding find
find-last [] packet at e = rw (same_refl packet) refl
find-last ((key, place) ∷ records) packet at e = elim (Bool-cases (same key packet)) [
  | inl s ↦ ground (arith, e, s)
  | inr s ↦ rw s (find-last records packet at (ground (arith, e, s)))
]

-- The record of an entry lies in the memory at its place.
abbrev pub IsPlaced : List ℕ → List ℕ × ℕ → Type 0
IsPlaced memory (key, at) =
    (before : List ℕ) × ((after : List ℕ) × ((memory ≡ before ++ record_of key ++ after)
        × (length before ≡ at)))

pub IsPlaced-append :
    (records : Records) (memory more : List ℕ)
    → All (IsPlaced memory) records
    → All (IsPlaced (memory ++ more)) records
IsPlaced-append [] memory more v = tt
IsPlaced-append ((key, at) ∷ records) memory more ((before, (after, (e, n))), v) = (
  (
    before,
    (after ++ more, (ap (λ m. m ++ more) e ∙ append_assoc (before ++ record_of key) after more, n)),
  ),
  IsPlaced-append records memory more v,
)

-- Packets that were known stay known, all of the new ones are, and every record is in its place.
pub record Laid (packets : List (List ℕ)) (old : Records) (made : Records × List ℕ) : Type 0 where
  pub kept : (packet : List ℕ) → Knows old packet → Knows made.0 packet
  pub found : All (Knows made.0) packets
  pub placed : All (IsPlaced made.1) made.0

pub lay_out-Laid :
    (packets : List (List ℕ)) (records : Records) (memory : List ℕ)
    → All (IsPlaced memory) records
    → Laid packets records (lay_out packets records memory)
unfolding lay_out
lay_out-Laid [] records memory v = record { kept = λ packet k. k; found = tt; placed = v }
lay_out-Laid (packet ∷ packets) records memory v = elim (Option-cases (find records packet)) [
  | inr (at, e) ↦
      let rest = lay_out-Laid packets records memory v in
      rw (lay_out, e)
        (record {
          kept = rest.kept;
          found = (rest.kept packet (at, e), rest.found);
          placed = rest.placed;
        })
  | inl e ↦
      let records' : Records = records ++ (packet, length memory) ∷ [] in
      let memory' : List ℕ = memory ++ record_of packet in
      let v' : All (IsPlaced memory') records' =
        All-append (IsPlaced memory') records ((packet, length memory) ∷ [])
          (IsPlaced-append records memory (record_of packet) v)
          ((memory, ([], (sym (append-nil memory'), refl))), tt) in
      let rest = lay_out-Laid packets records' memory' v' in
      rw (lay_out, e)
        (record {
          kept = λ p (at, f).
              rest.kept p (at, find-append records ((packet, length memory) ∷ []) p at f);
          found = (
            rest.kept packet (length memory, find-last records packet (length memory) e),
            rest.found,
          );
          placed = rest.placed;
        })
]
