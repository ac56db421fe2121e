-- ===== src/UsbBoard/Turns.antt =====
-- Every operation of the board keeps the account of its replies.
use protocol_emulator.Base.{
  ℕ, zero, ◌+◌, ◌≤◌, ◌≡◌, ◌∙◌, ap, sym, Bool, true, false, ◌&&◌, ◌||◌, Option, none, some, List, [],
  ◌∷◌, ◌++◌, arith, length, take, drop, int, ◌==◌, length-drop, take-append-drop, Bool-cases,
  Option-cases, List-cases, ltb, subst, suc, inl, inr,
}
use protocol_emulator.UsbBoard.Packets.{reply, tag_data0, tag_ack, tag_dropped}
use protocol_emulator.UsbBoard.State.{Board}
use protocol_emulator.UsbBoard.Board.{
  queue, next_chunk, take_request, setup, acked, requeue, take_ack, drop_reply, take_dropped,
  take_word, handle, feed, report, any_report, flushed,
}
use protocol_emulator.Base.{get_or, bit_or}
use protocol_emulator.Base.Bits.{shl}
use protocol_emulator.UsbBoard.Packets.{tag_data1, data1, words_bytes}
use protocol_emulator.UsbBoard.Queue.{
  is_pending, reports-append, reports, Fits, Inv, joined-Fits, answered_control-Fits,
  answered_report-Fits, dropped_report-Fits, dropped_control-Fits, absurd, any_report_lem,
  index_from_sum,
}

next_chunk-Inv : (held : ℕ) (b : Board) → Inv held b → Inv held (next_chunk b)
unfolding next_chunk queue
next_chunk-Inv held b v = elim (List-cases b.chunks) [
  | inl e ↦ rw e v
  | inr (chunk, (_, e)) ↦ rw e (
      joined-Fits held 0 (reply 0 b.toggle chunk) b.queued b.replies b.dropped b.dropped
        b.pending_report v (omega arith))
]

acked-Inv :
    (held endpoint : ℕ) (words : List ℕ) (qs : List (ℕ × List ℕ)) (b : Board)
    → Fits (suc held) ((endpoint, words) ∷ qs) b.replies b.dropped b.pending_report
    → Inv held (acked endpoint (record b { queued = qs }))
unfolding acked
acked-Inv held endpoint words qs b v =
    let control =
      answered_control-Fits held endpoint words qs b.replies b.dropped b.pending_report v in
    elim (Bool-cases (endpoint == 1)) [
      | inl e ↦
          rw e
            (answered_report-Fits held endpoint words qs b.replies b.dropped b.pending_report v e)
      | inr e ↦ rw e (elim (Bool-cases (ltb 0 (length b.chunks))) [
        | inl c ↦ rw c (next_chunk-Inv held (record b { queued = qs }) (control e))
        | inr c ↦ rw c (elim (Option-cases b.new_address) [
          | inl n ↦ rw n (control e)
          | inr (_, n) ↦ rw n (control e)
        ])
      ])
    ]

requeue-Inv : (held : ℕ) (b : Board) → Inv held b → Inv held (requeue b)
unfolding requeue
requeue-Inv held b v =
    let at : (p : Option (List ℕ))
        → b.pending_report ≡ p
        → Fits held b.queued b.replies b.dropped p =
      λ p e. subst (λ q. Fits held b.queued b.replies b.dropped q) e v in
    elim (Option-cases b.pending_report) [
      | inl n ↦ rw n (at none n)
      | inr (payload, n) ↦
          rw n
            (elim (Bool-cases (b.dropped && ((length b.chunks == 0) && (length b.replies == 0)))) [
              | inl c ↦ rw c (
                  joined-Fits held 1 (reply 1 b.report_toggle payload) b.queued b.replies false
                    b.dropped (some payload) (at (some payload) n) (ground (arith, c)))
              | inr c ↦ rw c (at (some payload) n)
            ])
    ]

drop_reply-Inv :
    (held endpoint : ℕ) (words : List ℕ) (qs : List (ℕ × List ℕ)) (b : Board)
    → Fits (suc held) ((endpoint, words) ∷ qs) b.replies b.dropped b.pending_report
    → Inv held (drop_reply endpoint words qs b)
unfolding drop_reply
drop_reply-Inv held endpoint words qs b v = elim (Bool-cases (endpoint == 1)) [
  | inl e ↦
      rw e (dropped_report-Fits held endpoint words qs b.replies b.dropped b.pending_report v e)
  | inr e ↦
      rw e (dropped_control-Fits held endpoint words qs b.replies b.dropped b.pending_report v e)
]

-- An answer of the core, to the first reply that it holds.
take_ack-Inv : (held : ℕ) (b : Board) → Inv (suc held) b → Inv held (take_ack b)
unfolding take_ack
take_ack-Inv held b v = elim (List-cases b.queued) [
  | inl e ↦ elim (absurd held (omega (arith, v.counted, ap length e))) [ ]
  | inr ((endpoint, words), (qs, e)) ↦ rw e (
      acked-Inv held endpoint words qs b
        (subst (λ l. Fits (suc held) l b.replies b.dropped b.pending_report) e v))
]

take_dropped-Inv : (held : ℕ) (b : Board) → Inv (suc held) b → Inv held (take_dropped b)
unfolding take_dropped
take_dropped-Inv held b v = elim (List-cases b.queued) [
  | inl e ↦ elim (absurd held (omega (arith, v.counted, ap length e))) [ ]
  | inr ((endpoint, words), (qs, e)) ↦ rw e (
      drop_reply-Inv held endpoint words qs b
        (subst (λ l. Fits (suc held) l b.replies b.dropped b.pending_report) e v))
]

take_request-Inv :
    (held request value asked : ℕ) (b : Board)
    → Inv held b
    → Inv held (take_request request value asked b)
unfolding take_request
take_request-Inv held request value asked b v = elim (Bool-cases (request == 6)) [
  | inl e ↦ rw e v
  | inr e ↦ rw e (elim (Bool-cases (request == 5)) [
    | inl f ↦ rw f v
    | inr f ↦ rw f (elim (Bool-cases (request == 9)) [ inl g ↦ rw g v | inr g ↦ rw g v ])
  ])
]

setup-Inv : (held : ℕ) (bytes : List ℕ) (b : Board) → Inv held b → Inv held (setup bytes b)
unfolding setup
setup-Inv held bytes b v =
    let b' : Board = record b { setups = suc b.setups; toggle = data1 } in
    let request : ℕ = get_or bytes 1 0 in
    let value : ℕ = bit_or (get_or bytes 2 0) (shl (get_or bytes 3 0) 8) in
    let asked : ℕ = bit_or (get_or bytes 6 0) (shl (get_or bytes 7 0) 8) in
    next_chunk-Inv held (take_request request value asked b')
      (take_request-Inv held request value asked b' v)

take_word-Inv : (held word left : ℕ) (b : Board) → Inv held b → Inv held (take_word word left b)
unfolding take_word
take_word-Inv held word left b v = elim (Option-cases b.tag) [
  | inl e ↦ rw e v
  | inr (tag, e) ↦ rw e (elim (Bool-cases ((left == 0) && (tag == tag_data0))) [
    | inl f ↦ rw f (
        setup-Inv held (take 8 (words_bytes (b.words ++ word ∷ [])))
          (record b { tag = some tag; words = b.words ++ word ∷ []; expect = left }) v)
    | inr f ↦ rw f v
  ])
]

-- Whether a word is the core's answer to its first reply, and not part of a packet.
abbrev pub is_answer : ℕ → Board → Bool
is_answer word b = (b.expect == 0) && ((word == tag_ack) || (word == tag_dropped))

-- A word that is no answer leaves what the core holds.
word-Inv :
    (held word left : ℕ) (b : Board)
    → (left == 0) && ((word == tag_ack) || (word == tag_dropped)) ≡ false
    → Inv held b
    → Inv held (handle word left b)
unfolding handle
word-Inv held word (suc left) b e v = take_word-Inv held word left b v
word-Inv held word zero b e v = elim (Bool-cases (word == tag_data0)) [
  | inl d ↦ rw d v
  | inr d ↦ rw d (elim (Bool-cases (word == tag_data1)) [
    | inl c ↦ rw c v
    | inr c ↦
        let not_ack : (word == tag_ack) ≡ false = ground (arith, e) in
        let not_dropped : (word == tag_dropped) ≡ false = ground (arith, e) in
        rw c (rw not_ack (rw not_dropped v))
  ])
]

-- An answer takes one of them away.
answer-Inv :
    (held word : ℕ) (b : Board)
    → (word == tag_ack) || (word == tag_dropped) ≡ true
    → Inv (suc held) b
    → Inv held (handle word 0 b)
unfolding handle
answer-Inv held word b e v =
    let not_data0 : (word == tag_data0) ≡ false = ground (arith, e) in
    let not_data1 : (word == tag_data1) ≡ false = ground (arith, e) in
    rw not_data0 (
      rw not_data1 (elim (Bool-cases (word == tag_ack)) [
        | inl a ↦ rw a (take_ack-Inv held b v)
        | inr a ↦
            let d : (word == tag_dropped) ≡ true = ground (arith, e, a) in
            rw a (rw d (take_dropped-Inv held b v))
      ]))

pub feed_word-Inv :
    (held word : ℕ) (b : Board) → is_answer word b ≡ false → Inv held b → Inv held (feed word b)
unfolding feed
feed_word-Inv held word b e v =
    requeue-Inv held (handle word b.expect b) (word-Inv held word b.expect b e v)

pub feed_answer-Inv :
    (held word : ℕ) (b : Board)
    → is_answer word b ≡ true
    → Inv (suc held) b
    → Inv held (feed word b)
unfolding feed
feed_answer-Inv held word b e v =
    let idle : b.expect ≡ 0 = ground (arith, e) in
    let answers : (word == tag_ack) || (word == tag_dropped) ≡ true = ground (arith, e) in
    requeue-Inv held (handle word b.expect b)
      (subst (λ n. Inv held (handle word n b)) (sym idle) (answer-Inv held word b answers v))

pub report-Inv :
    (held : ℕ) (payload : List ℕ) (b : Board)
    → b.pending_report ≡ none
    → Inv held b
    → Inv held (report payload b)
unfolding report queue
report-Inv held payload b e v =
    let free : reports b.queued + int b.dropped ≡ 0 = v.reported ∙ ap (λ p. int (is_pending p)) e in
    let v' : Fits held b.queued b.replies true (some payload) = record {
      counted = v.counted;
      aligned = v.aligned;
      reported = omega (arith, free);
    } in
    joined-Fits held 1 (reply 1 b.report_toggle payload) b.queued b.replies b.dropped true
      (some payload) v' (omega (arith, free))

reports-drop :
    (n : ℕ) (xs : List (ℕ × List ℕ)) → reports (take n xs) + reports (drop n xs) ≡ reports xs
reports-drop n xs =
    sym (reports-append (take n xs) (drop n xs)) ∙ ap reports (take-append-drop n xs)

-- What the core held is lost with its program.
pub flushed-Inv : (held : ℕ) (b : Board) → Inv held b → Inv 0 (flushed b)
unfolding flushed
flushed-Inv held b v = rw v.counted (
    rw (index_from_sum held (length b.replies)) (
      let one : reports b.queued + int b.dropped ≤ 1 = ground (arith, v.reported) in
      let split = reports-drop held b.queued in
      let lost = any_report_lem (take held b.queued) (omega (arith, one, split)) in
      let b' : Board = record b {
        dropped = b.dropped || any_report (take held b.queued);
        queued = drop held b.queued;
      } in
      requeue-Inv 0 b' record {
        counted = omega (arith, length-drop held b.queued, v.counted);
        aligned = v.aligned;
        reported = ground (arith, v.reported, split, lost);
      }))
