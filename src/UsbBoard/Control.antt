-- ===== src/UsbBoard/Control.antt =====
-- A control read, from the SETUP to the last packet that the host has acknowledged.
use protocol_emulator.Base.{
  ℕ, zero, suc, ◌≡◌, refl, ◌∙◌, ap, sym, true, ◌||◌, none, some, List, [], ◌∷◌, ◌++◌, arith, length,
  take, ◌==◌, ltb, get_or, bit_or,
}
use protocol_emulator.Base.Bits.{shr, shl}
use protocol_emulator.UsbBoard.Packets.{data1, tag_data0, tag_ack, reply, words_bytes}
use protocol_emulator.UsbBoard.State.{Board}
use protocol_emulator.UsbBoard.Board.{
  feed_all, queue, next_chunk, other_toggle, descriptor, answer_chunks, take_request, setup, acked,
  requeue, take_ack, handle, feed, take_word,
}
use protocol_emulator.UsbBoard.Chunks.{host_reads, answer_chunks-read}

-- The replies that the core is given, one after the other, as the host acknowledges each.
unfoldable pub replies_acked : ℕ → Board → List (List ℕ)
replies_acked zero b = []
replies_acked (suc n) b = b.replies ++ replies_acked n (feed tag_ack (record b { replies = [] }))

unfoldable pub in_turn : ℕ → List (List ℕ) → List (List ℕ)
in_turn pid [] = []
in_turn pid (chunk ∷ chunks) = reply 0 pid chunk ∷ in_turn (other_toggle pid) chunks

-- A board between packets, with no report, while a control read goes on.
abbrev pub answering : Board → ℕ → List (List ℕ) → List (List ℕ) → List (ℕ × List ℕ) → Board
answering b toggle chunks replies queued = record b {
  expect = 0;
  toggle = toggle;
  chunks = chunks;
  replies = replies;
  queued = queued;
  pending_report = none;
}

ack_next :
    (b : Board) (t : ℕ) (words chunk : List ℕ) (chunks : List (List ℕ))
    → feed tag_ack (answering b t (chunk ∷ chunks) [] ((0, words) ∷ []))
      ≡ answering b (other_toggle t) chunks (reply 0 t chunk ∷ []) ((0, reply 0 t chunk) ∷ [])
unfolding feed handle requeue take_ack acked next_chunk queue
ack_next b t words chunk chunks =
    let more : ltb 0 (suc (length chunks)) ≡ true = ground arith in rw more refl

acked-in_turn :
    (b : Board) (t : ℕ) (words : List ℕ) (chunks : List (List ℕ))
    → replies_acked (suc (length chunks)) (answering b t chunks (words ∷ []) ((0, words) ∷ []))
      ≡ words ∷ in_turn t chunks
unfolding replies_acked in_turn
acked-in_turn b t words [] = refl
acked-in_turn b t words (chunk ∷ chunks) =
    rw (ack_next b t words chunk chunks)
      (ap (λ l. words ∷ l) (acked-in_turn b (other_toggle t) (reply 0 t chunk) chunks))

next-in_turn :
    (b : Board) (t : ℕ) (chunks : List (List ℕ))
    → replies_acked (length chunks) (next_chunk (answering b t chunks [] [])) ≡ in_turn t chunks
unfolding replies_acked next_chunk queue in_turn
next-in_turn b t [] = refl
next-in_turn b t (chunk ∷ chunks) = acked-in_turn b (other_toggle t) (reply 0 t chunk) chunks

-- Between packets, with nothing queued and no report.
pub record Idle (b : Board) : Type 0 where
  pub waiting : b.expect ≡ 0
  pub unqueued : b.queued ≡ []
  pub unreplied : b.replies ≡ []
  pub unreported : b.pending_report ≡ none

pub Idle-answering : (b : Board) → Idle b → b ≡ answering b b.toggle b.chunks [] []
Idle-answering b v = λ i. record b {
  expect = v.waiting i;
  queued = v.unqueued i;
  replies = v.unreplied i;
  pending_report = v.unreported i;
}

pub requeue_next :
    (b : Board) (t : ℕ) (chunks : List (List ℕ))
    → requeue (next_chunk (answering b t chunks [] [])) ≡ next_chunk (answering b t chunks [] [])
unfolding requeue next_chunk queue
requeue_next b t [] = refl
requeue_next b t (chunk ∷ chunks) = refl

-- The board once a SETUP's six words are there.
abbrev pub received : Board → List ℕ → Board
received b words = record b { tag = some tag_data0; words = words }

-- A SETUP's tag and its six words are the request that `setup` takes.
pub feed-setup :
    (b : Board) (t : ℕ) (chunks : List (List ℕ)) (w0 w1 w2 w3 w4 w5 : ℕ)
    → feed_all (tag_data0 ∷ w0 ∷ w1 ∷ w2 ∷ w3 ∷ w4 ∷ w5 ∷ []) (answering b t chunks [] [])
      ≡ requeue (
          setup
            (take 8 (words_bytes (w0 ∷ w1 ∷ w2 ∷ w3 ∷ w4 ∷ w5 ∷ [])))
            (answering (received b (w0 ∷ w1 ∷ w2 ∷ w3 ∷ w4 ∷ w5 ∷ [])) t chunks [] []))
unfolding feed_all feed handle take_word requeue
feed-setup b t chunks w0 w1 w2 w3 w4 w5 = refl

-- The fields of a request.
abbrev pub request_of : List ℕ → ℕ
request_of bytes = get_or bytes 1 0

abbrev pub value_of : List ℕ → ℕ
value_of bytes = bit_or (get_or bytes 2 0) (shl (get_or bytes 3 0) 8)

abbrev pub length_of : List ℕ → ℕ
length_of bytes = bit_or (get_or bytes 6 0) (shl (get_or bytes 7 0) 8)

setup-get_descriptor :
    (b : Board) (t : ℕ) (chunks : List (List ℕ)) (bytes : List ℕ)
    → request_of bytes ≡ 6
    → setup bytes (answering b t chunks [] [])
      ≡ next_chunk (
          answering
            (record b {
              setups = suc b.setups;
              described = b.described || (shr (value_of bytes) 8 == 0x22);
            })
            data1
            (answer_chunks (descriptor b.descriptors (shr (value_of bytes) 8)) (length_of bytes))
            []
            [])
unfolding setup take_request
setup-get_descriptor b t chunks bytes e = rw e refl

-- A GET_DESCRIPTOR whose six words come to an idle board: the replies that the core is given, one
-- per ACK, are the answer's packets in turn, DATA1 first, and what a host reads from those packets
-- is the descriptor, cut to the length asked for.
pub get_descriptor_lem :
    (b : Board) (w0 w1 w2 w3 w4 w5 : ℕ) (bytes : List ℕ) (answer : List (List ℕ))
    → Idle b
    → bytes ≡ take 8 (words_bytes (w0 ∷ w1 ∷ w2 ∷ w3 ∷ w4 ∷ w5 ∷ []))
    → request_of bytes ≡ 6
    → answer ≡ answer_chunks (descriptor b.descriptors (shr (value_of bytes) 8)) (length_of bytes)
    → (replies_acked (length answer) (feed_all (tag_data0 ∷ w0 ∷ w1 ∷ w2 ∷ w3 ∷ w4 ∷ w5 ∷ []) b)
        ≡ in_turn data1 answer)
      × (host_reads (length_of bytes) answer
          ≡ some (take (length_of bytes) (descriptor b.descriptors (shr (value_of bytes) 8))))
get_descriptor_lem b w0 w1 w2 w3 w4 w5 bytes answer v e six a =
    let ws : List ℕ = w0 ∷ w1 ∷ w2 ∷ w3 ∷ w4 ∷ w5 ∷ [] in
    let b1 : Board = received b ws in
    let b2 : Board = record b1 {
      setups = suc b.setups;
      described = b.described || (shr (value_of bytes) 8 == 0x22);
    } in
    (
      ap (λ c. replies_acked (length answer) (feed_all (tag_data0 ∷ ws) c)) (Idle-answering b v)
          ∙ ap (λ c. replies_acked (length answer) c)
              (feed-setup b b.toggle b.chunks w0 w1 w2 w3 w4 w5)
          ∙ ap
              (λ l.
                replies_acked (length answer)
                  (requeue (setup l (answering b1 b.toggle b.chunks [] []))))
              (sym e)
          ∙ ap (λ c. replies_acked (length answer) (requeue c))
              (setup-get_descriptor b1 b.toggle b.chunks bytes six)
          ∙ ap
              (λ l.
                replies_acked (length answer) (requeue (next_chunk (answering b2 data1 l [] []))))
              (sym a)
          ∙ ap (λ c. replies_acked (length answer) c) (requeue_next b2 data1 answer)
          ∙ next-in_turn b2 data1 answer,
      ap (λ l. host_reads (length_of bytes) l) a
          ∙ answer_chunks-read (length_of bytes)
              (descriptor b.descriptors (shr (value_of bytes) 8)),
    )
