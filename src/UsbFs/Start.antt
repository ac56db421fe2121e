-- ===== src/UsbFs/Start.antt =====
-- The board that the constructor makes.
use protocol_emulator.Base.{
  ℕ, ◌≤◌, ◌≡◌, refl, ap, sym, Bool, true, false, Option, none, some, List, [], ◌∷◌, ◌++◌, arith,
  length, All, ltb, if◌then◌else◌, Result, ok, err, value_error, Bool-cases, inl, inr, subst,
}
use protocol_emulator.UsbFs.Records.{
  Descriptors, Records, Layout, same, find, lay_out, all_packets, all_descriptor_packets,
  report_packets, handshakes, layout,
}
use protocol_emulator.UsbFs.Board.{Board, new_board, feed, feed_all}
use protocol_emulator.UsbFs.Keys.{Knows, KnowsReport, Known, Keeps, keeps, feed-Keeps}
use protocol_emulator.UsbFs.Places.{IsPlaced, Laid, lay_out-Laid, IsPlaced-append}

abbrev laid : Descriptors → List (List ℕ) → Records × List ℕ
laid descriptors reports = lay_out (all_packets descriptors reports) [] handshakes

-- What a layout that is not refused has.
unfoldable Made : Records → List ℕ → List ℕ → Layout → Type 0
Made records memory certificate made =
    (made.records ≡ records) × ((made.memory ≡ memory ++ certificate) × (length made.memory ≤ 512))

abbrev layout_or : Layout → Result Layout → Layout
layout_or made (ok l) = l
layout_or made (err _) = made

fits_or_not :
    (too_long : Bool) (made l : Layout)
    → (if too_long then err value_error else ok l) ≡ ok made
    → (too_long ≡ false) × (l ≡ made)
fits_or_not true made l e = elim (clash e) [ ]
  where
    clash : err value_error ≡ ok made → ⊥
    clash e = ground arith
fits_or_not false made l e = (refl, ap (layout_or l) e)

Made-layout :
    (descriptors : Descriptors) (reports : List (List ℕ)) (certificate : List ℕ) (made : Layout)
    → layout descriptors reports certificate ≡ ok made
    → Made (laid descriptors reports).0 (laid descriptors reports).1 certificate made
unfolding layout Made
Made-layout descriptors reports certificate made e =
    let memory : List ℕ = (laid descriptors reports).1 ++ certificate in
    let (short, same_layout) =
      fits_or_not (ltb 512 (length memory)) made
        (record {
          records = (laid descriptors reports).0;
          certificate_base = length (laid descriptors reports).1;
          memory = memory;
        })
        e in
    let size : length memory ≤ 512 = ground (arith, short) in
    (
      ap (λ (l : Layout). l.records) (sym same_layout),
      (
        ap (λ (l : Layout). l.memory) (sym same_layout),
        subst (λ (l : Layout). length l.memory ≤ 512) same_layout size,
      ),
    )

known_reports :
    (records : Records) (reports : List (List ℕ))
    → All (Knows records) (report_packets reports)
    → All (KnowsReport records) reports
unfolding report_packets
known_reports records [] k = tt
known_reports records (payload ∷ reports) (a, (b, k)) = ((a, b), known_reports records reports k)

All-behind :
    (records : Records) (xs ys : List (List ℕ))
    → All (Knows records) (xs ++ ys)
    → All (Knows records) ys
All-behind records [] ys k = k
All-behind records (x ∷ xs) ys k = All-behind records xs ys k.1

then_rest :
    (words : List ℕ) (o : Option Board)
    → ((b : Board) → Known b → Keeps (feed_all words b))
    → Keeps o
    → Keeps (elim o [ none ↦ none | some b' ↦ feed_all words b' ])
then_rest words _ rest (keeps k) = rest _ k

feed_all-Keeps : (words : List ℕ) (b : Board) → Known b → Keeps (feed_all words b)
unfolding feed_all
feed_all-Keeps [] b v = keeps v
feed_all-Keeps (word ∷ words) b v =
    then_rest words (feed word b) (feed_all-Keeps words) (feed-Keeps word b v)

started-Known :
    (descriptors : Descriptors) (reports : List (List ℕ)) (made : Layout)
    → All (Knows made.records) (all_packets descriptors reports)
    → Known (new_board descriptors reports made)
unfolding new_board all_packets
started-Known descriptors reports made k = record {
  knows_stall = k.1.1.0;
  knows_empty = k.0;
  knows_reports = known_reports made.records reports (
      All-behind made.records (all_descriptor_packets descriptors) (report_packets reports)
        k.1.1.1);
  toggled = inl refl;
  knows_queue = tt;
  knows_flight = tt;
}

laid-Laid :
    (descriptors : Descriptors) (reports : List (List ℕ))
    → Laid (all_packets descriptors reports) [] (laid descriptors reports)
laid-Laid descriptors reports = lay_out-Laid (all_packets descriptors reports) [] handshakes tt

-- A board whose layout is not refused raises no `KeyError`, whatever words it is fed, and every
-- packet that it may have to send next is still known.
pub feed_all_lem :
    (descriptors : Descriptors) (reports : List (List ℕ)) (certificate words : List ℕ)
    (made : Layout)
    → layout descriptors reports certificate ≡ ok made
    → Keeps (feed_all words (new_board descriptors reports made))
unfolding Made
feed_all_lem descriptors reports certificate words made e =
    let (records, _) = Made-layout descriptors reports certificate made e in
    feed_all-Keeps words (new_board descriptors reports made) (
      started-Known descriptors reports made (
        subst (λ r. All (Knows r) (all_packets descriptors reports)) (sym records)
          (laid-Laid descriptors reports).found))

same→eq : (xs ys : List ℕ) → same xs ys ≡ true → xs ≡ ys
unfolding same
same→eq [] [] e = refl
same→eq [] (y ∷ ys) e = ground (arith, e)
same→eq (x ∷ xs) [] e = ground (arith, e)
same→eq (x ∷ xs) (y ∷ ys) e =
    let first : x ≡ y = ground (arith, e) in
    let rest : same xs ys ≡ true = ground (arith, e) in rw (first, same→eq xs ys rest) refl

find-IsPlaced :
    (records : Records) (memory packet : List ℕ) (at : ℕ)
    → find records packet ≡ some at
    → All (IsPlaced memory) records
    → IsPlaced memory (packet, at)
unfolding find
find-IsPlaced [] memory packet at e k = elim (clash e) [ ]
  where
    clash : find [] packet ≡ some at → ⊥
    clash e = ground arith
find-IsPlaced ((key, place) ∷ records) memory packet at e (here, k) =
    elim (Bool-cases (same key packet)) [
      | inl s ↦
          let place_at : place ≡ at = ground (arith, e, s) in
          rw⁻¹ (same→eq key packet s, place_at) here
      | inr s ↦ find-IsPlaced records memory packet at (ground (arith, e, s)) k
    ]

-- Where the layout is not refused and a packet has a place: its record stands in the data memory
-- at that place, and the memory has 512 words at most.
pub layout-IsPlaced :
    (descriptors : Descriptors) (reports : List (List ℕ)) (certificate packet : List ℕ)
    (made : Layout) (at : ℕ)
    → layout descriptors reports certificate ≡ ok made
    → find made.records packet ≡ some at
    → IsPlaced made.memory (packet, at) × (length made.memory ≤ 512)
unfolding Made
layout-IsPlaced descriptors reports certificate packet made at e f =
    let (records, (memory, size)) = Made-layout descriptors reports certificate made e in
    (
      subst (λ m. IsPlaced m (packet, at)) (sym memory)
          (find-IsPlaced (laid descriptors reports).0 ((laid descriptors reports).1 ++ certificate)
            packet at (subst (λ r. find r packet ≡ some at) records f)
            (IsPlaced-append (laid descriptors reports).0 (laid descriptors reports).1 certificate
              (laid-Laid descriptors reports).placed)),
      size,
    )
