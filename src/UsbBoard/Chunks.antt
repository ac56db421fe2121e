-- ===== src/UsbBoard/Chunks.antt =====
-- The packets of a control read against the rule by which a USB host ends it.
use protocol_emulator.Base.{
  ℕ, zero, suc, ◌-◌, ◌%◌, ◌≤◌, ◌<◌, ◌≡◌, refl, ◌∙◌, ap, sym, true, ◌&&◌, ◌||◌, Option, none, some,
  List, [], ◌∷◌, ◌++◌, append-nil, arith, length, take, drop, ◌==◌, ltb, leb, if◌then◌else◌,
  length-drop, length-take, take-append-drop, take-length, drop-length, Bool-cases, inl, inr, subst,
}
use protocol_emulator.Base.Slices.{pieces, pieces_of}
use protocol_emulator.UsbBoard.Packets.{max_packet}
use protocol_emulator.UsbBoard.Queue.{absurd}
use protocol_emulator.UsbBoard.Board.{answer_chunks}

abbrev prepend : List ℕ → Option (List ℕ) → Option (List ℕ)
prepend packet none = none
prepend packet (some bytes) = some (packet ++ bytes)

-- What a host that asked for n bytes has read: it takes full packets until n bytes are there, or up
-- to the first packet that is not full. It is none where a packet is missing, is left over, or has
-- more than was asked for.
unfoldable pub host_reads : ℕ → List (List ℕ) → Option (List ℕ)
host_reads n [] = if n == 0 then some [] else none
host_reads n (packet ∷ packets) =
    let rest = host_reads (n - max_packet) packets in
    if (n == 0) || ltb n (length packet) || ltb max_packet (length packet)
    then none
    else if length packet == max_packet
    then prepend packet rest
    else if length packets == 0
    then some packet
    else none

abbrev end_packet : ℕ → List ℕ → List (List ℕ)
end_packet n xs = if ltb (length xs) n && (length xs % max_packet == 0) then [] ∷ [] else []

reads_full :
    (n : ℕ) (packet : List ℕ) (packets : List (List ℕ)) (bytes : List ℕ)
    → length packet ≡ max_packet
    → max_packet ≤ n
    → host_reads (n - max_packet) packets ≡ some bytes
    → host_reads n (packet ∷ packets) ≡ some (packet ++ bytes)
unfolding host_reads
reads_full n packet packets bytes l h e = rw e (ground (arith, l, h))

reads_short :
    (n : ℕ) (packet : List ℕ)
    → length packet < max_packet
    → length packet ≤ n
    → 0 < n
    → host_reads n (packet ∷ []) ≡ some packet
unfolding host_reads
reads_short n packet l h p = ground (arith, l, h)

pieces_of_nil : (fuel : ℕ) → pieces_of {A = ℕ} max_packet fuel [] ≡ []
pieces_of_nil zero = refl
pieces_of_nil (suc fuel) = refl

end_packet-short :
    (n : ℕ) (xs : List ℕ) → 0 < length xs → length xs < max_packet → end_packet n xs ≡ []
end_packet-short n xs p h = ground arith

end_packet-drop :
    (n : ℕ) (xs : List ℕ)
    → max_packet ≤ length xs
    → length xs ≤ n
    → end_packet (n - max_packet) (drop max_packet xs) ≡ end_packet n xs
end_packet-drop n xs h l =
    let size = length-drop max_packet xs in
    let rest : length (drop max_packet xs) % max_packet ≡ length xs % max_packet =
      omega (arith, size) in
    let less : ltb (length (drop max_packet xs)) (n - max_packet) ≡ ltb (length xs) n =
      ground (arith, size) in
    ap (λ r. if ltb (length (drop max_packet xs)) (n - max_packet) && (r == 0) then [] ∷ [] else [])
      rest
    ∙ ap (λ t. if t && (length xs % max_packet == 0) then [] ∷ [] else []) less

read_step :
    (fuel n x : ℕ) (xs : List ℕ)
    → ((k : ℕ) (ys : List ℕ)
        → length ys ≤ fuel
        → length ys ≤ k
        → host_reads k (pieces_of max_packet fuel ys ++ end_packet k ys) ≡ some ys)
    → length xs ≤ fuel
    → suc (length xs) ≤ n
    → host_reads n (
        (take max_packet (x ∷ xs) ∷ pieces_of max_packet fuel (drop max_packet (x ∷ xs)))
        ++ end_packet n (x ∷ xs))
      ≡ some (x ∷ xs)
read_step fuel n x xs again f h = elim (Bool-cases (leb max_packet (length (x ∷ xs)))) [
  | inl full ↦
      let l : List ℕ = x ∷ xs in
      let size : length (take max_packet l) ≡ max_packet =
        ground (arith, length-take max_packet l, full) in
      let enough : max_packet ≤ length l = ground (arith, full) in
      let tail =
        again (n - max_packet) (drop max_packet l) (omega (arith, length-drop max_packet l))
          (omega (arith, length-drop max_packet l)) in
      let tail' =
        subst
          (λ e.
            host_reads (n - max_packet) (pieces_of max_packet fuel (drop max_packet l) ++ e)
            ≡ some (drop max_packet l))
          (end_packet-drop n l enough h) tail in
      reads_full n (take max_packet l) _ (drop max_packet l) size (omega (arith, enough)) tail'
      ∙ ap some (take-append-drop max_packet l)
  | inr short ↦
      let l : List ℕ = x ∷ xs in
      let less : length l < max_packet = ground (arith, short) in
      ap (λ p. host_reads n ((p ∷ pieces_of max_packet fuel (drop max_packet l)) ++ end_packet n l))
        (take-length max_packet l (omega (arith, less)))
      ∙ ap (λ d. host_reads n ((l ∷ pieces_of max_packet fuel d) ++ end_packet n l))
          (drop-length max_packet l (omega (arith, less)))
      ∙ ap (λ d. host_reads n ((l ∷ d) ++ end_packet n l)) (pieces_of_nil fuel)
      ∙ ap (λ e. host_reads n (l ∷ e)) (end_packet-short n l (omega arith) less)
      ∙ reads_short n l less h (omega (arith, h))
]

read_nothing : (n : ℕ) → host_reads n (end_packet n []) ≡ some []
unfolding host_reads
read_nothing zero = refl
read_nothing (suc n) =
    let more : ltb 0 (suc n) ≡ true = ground arith in
    rw more (reads_short (suc n) [] (omega arith) (omega arith) (omega arith))

read_pieces :
    (fuel n : ℕ) (xs : List ℕ)
    → length xs ≤ fuel
    → length xs ≤ n
    → host_reads n (pieces_of max_packet fuel xs ++ end_packet n xs) ≡ some xs
read_pieces zero n [] f h = read_nothing n
read_pieces (suc fuel) n [] f h = read_nothing n
read_pieces zero n (x ∷ xs) f h = elim (absurd (length xs) f) [ ]
read_pieces (suc fuel) n (x ∷ xs) f h =
    read_step fuel n x xs (read_pieces fuel) (omega (arith, f)) h

-- What a host reads from the packets that answer a control read of n bytes is the first n bytes of
-- the descriptor: no packet is missing or left over, none is too long, and an answer that is short
-- ends with a packet that is not full.
pub answer_chunks-read :
    (n : ℕ) (bytes : List ℕ) → host_reads n (answer_chunks bytes n) ≡ some (take n bytes)
unfolding answer_chunks pieces
answer_chunks-read n bytes =
    let t : List ℕ = take n bytes in
    let r = read_pieces (length t) n t (omega arith) (omega (arith, length-take n bytes)) in
    let ps : List (List ℕ) = pieces_of max_packet (length t) t in
    elim (Bool-cases (ltb (length t) n && (length t % max_packet == 0))) [
      | inl c ↦ rw c (subst (λ z. host_reads n (ps ++ (if z then [] ∷ [] else [])) ≡ some t) c r)
      | inr c ↦ rw c (
          sym (ap (λ p. host_reads n p) (append-nil ps))
          ∙ subst (λ z. host_reads n (ps ++ (if z then [] ∷ [] else [])) ≡ some t) c r)
    ]
