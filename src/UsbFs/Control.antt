-- ===== src/UsbFs/Control.antt =====
-- The packets of a control read, against the rule by which a USB host ends it.
use protocol_emulator.Base.{
  ℕ, suc, ◌%◌, ◌≡◌, refl, ◌∙◌, ap, sym, ◌&&◌, some, List, [], ◌∷◌, map, length, take, ltb, ◌==◌,
  if◌then◌else◌, Bool-cases, inl, inr, subst, arith,
}
use protocol_emulator.UsbBoard.Board.{answer_chunks}
use protocol_emulator.UsbBoard.Chunks.{host_reads, answer_chunks-read}
use protocol_emulator.UsbFs.Packets.{data0, data1, data_packet, numbered, chunks}

-- The bytes behind a packet's PID.
abbrev pub payload : List ℕ → List ℕ
payload [] = []
payload (_ ∷ bytes) = bytes

abbrev pub pid : List ℕ → ℕ
pid [] = 0
pid (p ∷ _) = p

-- DATA1 first, and then each PID differs from the one before it.
unfoldable pub Alternates : ℕ → List (List ℕ) → Type 0
Alternates p [] = Unit {0}
Alternates p (packet ∷ packets) =
    (pid packet ≡ p) × Alternates (if p == data1 then data0 else data1) packets

numbered-payload : (n : ℕ) (out : List (List ℕ)) → map payload (numbered n out) ≡ out
unfolding numbered data_packet
numbered-payload n [] = refl
numbered-payload n (chunk ∷ out) = ap (λ l. chunk ∷ l) (numbered-payload (suc n) out)

numbered-Alternates :
    (n : ℕ) (out : List (List ℕ))
    → Alternates (if n % 2 == 0 then data1 else data0) (numbered n out)
unfolding numbered data_packet Alternates
numbered-Alternates n [] = tt
numbered-Alternates n (chunk ∷ out) =
    let next : (if (if n % 2 == 0 then data1 else data0) == data1 then data0 else data1)
        ≡ (if suc n % 2 == 0 then data1 else data0) =
      ground arith in
    (
      refl,
      subst (λ p. Alternates p (numbered (suc n) out)) (sym next) (numbered-Alternates (suc n) out),
    )

chunks-numbered : (n : ℕ) (bytes : List ℕ) → chunks bytes n ≡ numbered 0 (answer_chunks bytes n)
unfolding chunks answer_chunks
chunks-numbered n bytes =
    elim (Bool-cases (ltb (length (take n bytes)) n && (length (take n bytes) % 8 == 0))) [
      | inl e ↦ rw e refl
      | inr e ↦ rw e refl
    ]

-- What a host reads from the payloads of `chunks` is the first n bytes of the descriptor, and
-- their PIDs alternate, DATA1 first.
pub chunks-read :
    (n : ℕ) (bytes : List ℕ)
    → (host_reads n (map payload (chunks bytes n)) ≡ some (take n bytes))
      × Alternates data1 (chunks bytes n)
chunks-read n bytes =
    let out : List (List ℕ) = answer_chunks bytes n in
    (
      ap (λ l. host_reads n (map payload l)) (chunks-numbered n bytes)
          ∙ ap (λ l. host_reads n l) (numbered-payload 0 out)
          ∙ answer_chunks-read n bytes,
      subst (λ l. Alternates data1 l) (sym (chunks-numbered n bytes)) (numbered-Alternates 0 out),
    )
