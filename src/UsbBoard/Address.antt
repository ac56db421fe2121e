-- ===== src/UsbBoard/Address.antt =====
-- SET_ADDRESS, from the SETUP to the ACK of its status packet.
use protocol_emulator.Base.{ℕ, ◌≡◌, refl, ◌∙◌, ap, sym, Option, some, List, [], ◌∷◌, take, subst}
use protocol_emulator.UsbBoard.Packets.{data1, tag_data0, tag_ack, reply, words_bytes}
use protocol_emulator.UsbBoard.State.{Board}
use protocol_emulator.UsbBoard.Board.{
  queue, next_chunk, take_request, setup, acked, requeue, take_ack, handle, feed, feed_all,
}
use protocol_emulator.UsbBoard.Control.{
  Idle, answering, received, Idle-answering, feed-setup, request_of, value_of,
}

-- The board's account of a new address: what it answers now, and what is acknowledged next.
pub record Moves (address : ℕ) (loads : Option ℕ) (value : ℕ) (b : Board) : Type 0 where
  pub kept : b.address ≡ address
  pub unloaded : b.reload ≡ loads
  pub told : b.replies ≡ reply 0 data1 [] ∷ []
  pub moved : (feed tag_ack (record b { replies = [] })).address ≡ value
  pub reloads : (feed tag_ack (record b { replies = [] })).reload ≡ some value

setup-Moves :
    (b : Board) (t : ℕ) (chunks : List (List ℕ)) (bytes : List ℕ)
    → request_of bytes ≡ 5
    → Moves b.address b.reload (value_of bytes) (requeue (setup bytes (answering b t chunks [] [])))
unfolding requeue setup take_request next_chunk queue feed handle take_ack acked
setup-Moves b t chunks bytes e =
    rw e record { kept = refl; unloaded = refl; told = refl; moved = refl; reloads = refl }

-- A SET_ADDRESS whose six words come to an idle board: the address and what is to be loaded stay
-- as they were while the empty status packet is queued, and its ACK sets both to the new address.
pub set_address_lem :
    (b : Board) (w0 w1 w2 w3 w4 w5 : ℕ) (bytes : List ℕ)
    → Idle b
    → bytes ≡ take 8 (words_bytes (w0 ∷ w1 ∷ w2 ∷ w3 ∷ w4 ∷ w5 ∷ []))
    → request_of bytes ≡ 5
    → Moves b.address b.reload
        (value_of bytes)
        (feed_all (tag_data0 ∷ w0 ∷ w1 ∷ w2 ∷ w3 ∷ w4 ∷ w5 ∷ []) b)
set_address_lem b w0 w1 w2 w3 w4 w5 bytes v e five =
    let ws : List ℕ = w0 ∷ w1 ∷ w2 ∷ w3 ∷ w4 ∷ w5 ∷ [] in
    let b1 : Board = received b ws in
    let steps : requeue (setup bytes (answering b1 b.toggle b.chunks [] []))
        ≡ feed_all (tag_data0 ∷ ws) b =
      ap (λ l. requeue (setup l (answering b1 b.toggle b.chunks [] []))) e
      ∙ sym (feed-setup b b.toggle b.chunks w0 w1 w2 w3 w4 w5)
      ∙ sym (ap (λ c. feed_all (tag_data0 ∷ ws) c) (Idle-answering b v)) in
    subst (λ c. Moves b.address b.reload (value_of bytes) c) steps
      (setup-Moves b1 b.toggle b.chunks bytes five)
