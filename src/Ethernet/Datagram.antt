-- ===== src/Ethernet/Datagram.antt =====
-- The frame of `udp`.
use protocol_emulator.Base.{
  ℕ, ◌+◌, ◌-◌, ◌%◌, ◌≤◌, ◌≡◌, refl, ◌∙◌, ap, sym, List, [], ◌∷◌, ◌++◌, arith, max, length, take,
  drop, replicate, length-append, length-replicate, append_assoc, take-append, drop-append,
}
use protocol_emulator.Base.Bits.{bit_and-1}
use protocol_emulator.Ethernet.{
  udp, unpadded, padded_length, ip_header, datagram_header, big16, ip_checksum,
}

-- What lies ahead of the payload: 14 bytes of Ethernet, 20 of IPv4, 8 of UDP.
abbrev headers : List ℕ → ℕ → List ℕ → List ℕ
headers source port payload =
    let datagram = datagram_header port payload in
    let size = length datagram + length payload in
    (replicate 6 0xff ++ (2 ∷ 0 ∷ 0 ∷ 0 ∷ 0 ∷ 2 ∷ []) ++ big16 0x0800)
    ++ ip_header source size (ip_checksum (ip_header source size 0))
    ++ datagram

length-headers :
    (a b c d port : ℕ) (payload : List ℕ) → length (headers (a ∷ b ∷ c ∷ d ∷ []) port payload) ≡ 42
unfolding ip_header datagram_header big16
length-headers a b c d port payload = refl

-- The frame of `udp` has 60 bytes at least and an even length, and holds the payload from byte 42
-- on.
udp_lem :
    (a b c d port : ℕ) (payload : List ℕ)
    → (60 ≤ length (udp payload (a ∷ b ∷ c ∷ d ∷ []) port))
      × ((length (udp payload (a ∷ b ∷ c ∷ d ∷ []) port) % 2 ≡ 0)
          × (take (length payload) (drop 42 (udp payload (a ∷ b ∷ c ∷ d ∷ []) port)) ≡ payload))
unfolding udp unpadded padded_length
udp_lem a b c d port payload =
    let h : List ℕ = headers (a ∷ b ∷ c ∷ d ∷ []) port payload in
    let n : length h ≡ 42 = length-headers a b c d port payload in
    let pad : ℕ = padded_length (length (h ++ payload)) - length (h ++ payload) in
    let size = length-append h payload in
    let whole = length-append (h ++ payload) (replicate pad 0) in
    let zeros = length-replicate {A = ℕ} pad 0 in
    let odd = bit_and-1 (max 60 (length (h ++ payload))) in
    (
      omega (arith, whole, zeros, size, odd),
      (
        omega (arith, whole, zeros, size, odd),
        ap (λ l. take (length payload) (drop 42 l)) (append_assoc h payload (replicate pad 0))
            ∙ ap (λ k. take (length payload) (drop k (h ++ (payload ++ replicate pad 0)))) (sym n)
            ∙ ap (λ l. take (length payload) l) (drop-append h (payload ++ replicate pad 0))
            ∙ take-append payload (replicate pad 0),
      ),
    )
