-- ===== src/UsbBoard/Board.antt =====
-- python/usb_board.py: `Board`, which does no I/O.
use protocol_emulator.Base.{
  ℕ, zero, suc, ◌-◌, ◌%◌, Bool, true, false, ◌&&◌, ◌||◌, not, none, some, List, [], ◌∷◌, ◌++◌,
  bit_or, length, get_or, take, drop, ltb, leb, ◌==◌, if◌then◌else◌,
}
use protocol_emulator.Base.Bits.{shr, shl}
use protocol_emulator.Base.Slices.{pieces}
use protocol_emulator.UsbBoard.Packets.{
  data0, data1, max_packet, tag_data0, tag_data1, tag_ack, tag_dropped, words_bytes, reply,
}
use protocol_emulator.UsbBoard.State.{Board}

-- `_queue`
unfoldable pub queue : ℕ → ℕ → List ℕ → Board → Board
queue endpoint pid payload b = record b {
  replies = b.replies ++ reply endpoint pid payload ∷ [];
  queued = b.queued ++ (endpoint, reply endpoint pid payload) ∷ [];
}

-- The other data PID, as the toggles are flipped.
abbrev pub other_toggle : ℕ → ℕ
other_toggle t = if t == data1 then data0 else data1

-- The report's toggle is flipped by a test on the other PID.
abbrev pub other_report_toggle : ℕ → ℕ
other_report_toggle t = if t == data0 then data1 else data0

-- `_next_chunk`
unfoldable pub next_chunk : Board → Board
unfolding queue
next_chunk b = elim b.chunks [
  | [] ↦ b
  | chunk ∷ chunks ↦ record (queue 0 b.toggle chunk (record b { chunks = chunks })) {
    toggle = other_toggle b.toggle;
  }
]

-- `self.descriptors.get(kind, [])`
unfoldable pub descriptor : List (ℕ × List ℕ) → ℕ → List ℕ
descriptor [] kind = []
descriptor ((k, bytes) ∷ descriptors) kind =
    if k == kind then bytes else descriptor descriptors kind

-- The packets that answer GET_DESCRIPTOR: a short answer that ends on a full packet, or is empty,
-- has an empty one behind it.
unfoldable pub answer_chunks : List ℕ → ℕ → List (List ℕ)
answer_chunks bytes length_asked =
    let answer = take length_asked bytes in
    if ltb (length answer) length_asked && (length answer % max_packet == 0)
    then pieces max_packet answer ++ [] ∷ []
    else pieces max_packet answer

-- The request's branches in `_setup`: 6 GET_DESCRIPTOR, 5 SET_ADDRESS, 9 SET_CONFIGURATION.
unfoldable pub take_request : ℕ → ℕ → ℕ → Board → Board
take_request request value length_asked b =
    if request == 6
    then record b {
      described = b.described || (shr value 8 == 0x22);
      chunks = answer_chunks (descriptor b.descriptors (shr value 8)) length_asked;
    }
    else if request == 5
    then record b { new_address = some value; chunks = [] ∷ [] }
    else if request == 9
    then record b { configured = not (value == 0); report_toggle = data0; chunks = [] ∷ [] }
    else record b { chunks = [] ∷ [] }

-- `_setup`, of a SETUP's bytes.
unfoldable pub setup : List ℕ → Board → Board
unfolding take_request next_chunk
setup bytes b = next_chunk (
    take_request (get_or bytes 1 0) (bit_or (get_or bytes 2 0) (shl (get_or bytes 3 0) 8))
      (bit_or (get_or bytes 6 0) (shl (get_or bytes 7 0) 8))
      (record b { setups = suc b.setups; toggle = data1 }))

-- `_acked`
unfoldable pub acked : ℕ → Board → Board
unfolding next_chunk
acked endpoint b =
    if endpoint == 1
    then record b { pending_report = none; report_toggle = other_report_toggle b.report_toggle }
    else if ltb 0 (length b.chunks)
    then next_chunk b
    else elim b.new_address [
      | none ↦ b
      | some a ↦ record b { address = a; reload = some a; new_address = none }
    ]

-- `_requeue`
unfoldable pub requeue : Board → Board
unfolding queue
requeue b = elim b.pending_report [
  | none ↦ b
  | some payload ↦
      if b.dropped && ((length b.chunks == 0) && (length b.replies == 0))
      then queue 1 b.report_toggle payload (record b { dropped = false })
      else b
]

-- Where `xs.insert(i, x)` and `xs[i:]` are for `i = m - n`, which is negative where `n` is larger.
abbrev pub index_from : ℕ → ℕ → ℕ
index_from m n = if leb n m then m - n else m - (n - m)

-- `word == TAG_ACK and self.queued`
unfoldable pub take_ack : Board → Board
take_ack b = elim b.queued [
  | [] ↦ b
  | (endpoint, words) ∷ queued ↦ acked endpoint (record b { queued = queued })
]

-- The first of the queue was dropped: a report is queued again later, a control reply goes again at
-- once, behind what the fifo holds.
unfoldable pub drop_reply : ℕ → List ℕ → List (ℕ × List ℕ) → Board → Board
drop_reply endpoint words queued b =
    if endpoint == 1
    then record b { queued = queued; dropped = true }
    else (let in_fifo = index_from (length queued) (length b.replies) in
        record b {
          replies = words ∷ b.replies;
          queued = take in_fifo queued ++ (0, words) ∷ drop in_fifo queued;
        })

-- `word == TAG_DROPPED and self.queued`
unfoldable pub take_dropped : Board → Board
unfolding drop_reply
take_dropped b = elim b.queued [
  | [] ↦ b
  | (endpoint, words) ∷ queued ↦ drop_reply endpoint words queued b
]

-- A word of the packet that `expect` counts.
unfoldable pub take_word : ℕ → ℕ → Board → Board
take_word word left b =
    let words = b.words ++ word ∷ [] in
    let b' : Board = record b { words = words; expect = left } in
    elim b.tag [
      | none ↦ b'
      | some tag ↦
          if (left == 0) && (tag == tag_data0) then setup (take 8 (words_bytes words)) b' else b'
    ]

abbrev await : ℕ → ℕ → Board → Board
await tag count b = record b { tag = some tag; expect = count; words = [] }

-- `feed`, before its last line.
unfoldable pub handle : ℕ → ℕ → Board → Board
unfolding take_ack take_dropped take_word
handle word zero b =
    if word == tag_data0
    then await word 6 b
    else if word == tag_data1
    then await word 2 b
    else if word == tag_ack
    then take_ack b
    else if word == tag_dropped
    then take_dropped b
    else b
handle word (suc left) b = take_word word left b

unfoldable pub feed : ℕ → Board → Board
unfolding handle requeue
feed word b = requeue (handle word b.expect b)

-- `for word in words: board.feed(word)`
unfoldable pub feed_all : List ℕ → Board → Board
feed_all [] b = b
feed_all (word ∷ words) b = feed_all words (feed word b)

-- `report`
unfoldable pub report : List ℕ → Board → Board
unfolding queue
report payload b = queue 1 b.report_toggle payload (record b { pending_report = some payload })

abbrev pub any_report : List (ℕ × List ℕ) → Bool
any_report [] = false
any_report ((endpoint, _) ∷ queued) = (endpoint == 1) || any_report queued

-- `flushed`
unfoldable pub flushed : Board → Board
unfolding requeue
flushed b =
    let lost = index_from (length b.queued) (length b.replies) in
    requeue (record b {
      dropped = b.dropped || any_report (take lost b.queued);
      queued = drop lost b.queued;
    })
