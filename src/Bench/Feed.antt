-- ===== src/Bench/Feed.antt =====
-- `pio_upstream.feed` against an engine that takes words from the tx fifo.
use protocol_emulator.Base.{
  ℕ, zero, suc, ◌+◌, ◌-◌, ◌*◌, ◌<◌, ◌≤◌, ◌≡◌, ◌⊎◌, refl, ◌∙◌, ap, sym, Bool, true, false, List, [],
  ◌∷◌, ◌++◌, append-nil, append_assoc, arith, ok, err, Result, short, length, take, drop, ◌==◌, leb,
  if◌then◌else◌, length-append, length-take, length-drop, take-append-drop, bit_and, Bool-cases,
  inl, inr, subst, bind_ok, ◌>>=◌,
}
use protocol_emulator.Base.Bits.{shr, bit_and-15}
use protocol_emulator.Host.Registers.{status_reg, tx_reg}
use protocol_emulator.Host.Device.{Device, put_all, device_port}
use protocol_emulator.Host.Methods.{push, read_one}
use protocol_emulator.Bench.{feed, feed_from, push_room, tx_level, depth}

-- The words that wait and those that were taken, oldest first; `lost` is set once a word finds the
-- fifo full, and `turn` counts the reads of the status.
pub record Sink : Type 0 where
  pub tx : List ℕ
  pub taken : List ℕ
  pub lost : Bool
  pub turn : ℕ

-- The engine takes so many words.
abbrev pub take_turn : ℕ → Sink → Sink
take_turn n s = record s { tx = drop n s.tx; taken = s.taken ++ take n s.tx; turn = suc s.turn }

abbrev put_word : ℕ → Sink → Sink
put_word w s =
    if leb depth (length s.tx) then record s { lost = true } else record s { tx = s.tx ++ w ∷ [] }

-- Before each read of the status, the engine takes as many words as `plan` says.
abbrev pub sink : (ℕ → ℕ) → Device
sink plan = record {
  State = Sink;
  put = λ reg w s. if reg == tx_reg then put_word w s else s;
  get = λ reg s.
      if reg == status_reg
      then (let t = take_turn (plan s.turn) s in (64 * length t.tx, t))
      else (0, s);
}

put_all-tx :
    (plan : ℕ → ℕ) (words : List ℕ) (s : Sink)
    → length s.tx + length words ≤ depth
    → put_all (sink plan) tx_reg words s ≡ record s { tx = s.tx ++ words }
put_all-tx plan [] s h = rw (append-nil s.tx) refl
put_all-tx plan (w ∷ words) s h =
    let fits : leb depth (length s.tx) ≡ false = ground (arith, h) in
    ap
      (λ b.
        put_all (sink plan) tx_reg words
          (if b then record s { lost = true } else record s { tx = s.tx ++ w ∷ [] }))
      fits
    ∙ put_all-tx plan words (record s { tx = s.tx ++ w ∷ [] })
        (omega (arith, h, length-append s.tx (w ∷ [])))
    ∙ ap (λ l. record s { tx = l }) (append_assoc s.tx (w ∷ []) words)

module _ (plan : ℕ → ℕ) where
  -- The sink after a turn of the loop with words left.
  abbrev turned : Sink → Sink
  turned s = take_turn (plan s.turn) s

  abbrev room : Sink → ℕ
  room s = depth - length (turned s).tx

  abbrev fed : List ℕ → Sink → Sink
  fed rest s = record (turned s) { tx = (turned s).tx ++ take (room s) rest }

  tx_level-turned :
      (s : Sink)
      → length s.tx ≤ depth
      → tx_level (device_port (sink plan)) s ≡ (ok (length (turned s).tx), turned s)
  unfolding tx_level read_one
  tx_level-turned s h =
      let n : ℕ = length (turned s).tx in
      let size : n ≤ 8 = omega (arith, length-drop (plan s.turn) s.tx, h) in
      let level : bit_and (shr (64 * n) 6) 15 ≡ n =
        omega (arith, size, bit_and-15 (shr (64 * n) 6)) in
      ap (λ k. (ok k, turned s)) level

  push_room-fed :
      (rest : List ℕ) (s : Sink)
      → length s.tx ≤ depth
      → push_room (device_port (sink plan)) rest (room s) (turned s)
        ≡ (ok (drop (room s) rest), fed rest s)
  unfolding push_room push
  push_room-fed rest s h = elim (Bool-cases (room s == 0)) [
    | inl e ↦
        let none_free : room s ≡ 0 = ground (arith, e) in
        rw e (
          ap (λ l. (ok rest, record (turned s) { tx = l })) (sym (append-nil (turned s).tx))
          ∙ ap (λ k. (ok (drop k rest), record (turned s) { tx = (turned s).tx ++ take k rest }))
              (sym none_free))
    | inr e ↦ rw e (
        ap (λ t. (ok (drop (room s) rest), t))
          (put_all-tx plan (take (room s) rest) (turned s)
            (omega (arith, length-take (room s) rest, length-drop (plan s.turn) s.tx, h))))
  ]

  -- Nothing is lost, and the words are those that were taken, those that wait and the rest, in order.
  record Inv (words rest : List ℕ) (s : Sink) : Type 0 where
    in_depth : length s.tx ≤ depth
    kept : s.lost ≡ false
    order : s.taken ++ (s.tx ++ rest) ≡ words

  fed-Inv :
      (words rest : List ℕ) (s : Sink)
      → Inv words rest s
      → Inv words (drop (room s) rest) (fed rest s)
  fed-Inv words rest s v = record {
    in_depth = omega (
      arith,
      length-append (turned s).tx (take (room s) rest),
      length-take (room s) rest,
      length-drop (plan s.turn) s.tx,
      v.in_depth,
    );
    kept = v.kept;
    order =
        ap (λ l. (turned s).taken ++ l)
          (append_assoc (turned s).tx (take (room s) rest) (drop (room s) rest)
            ∙ ap (λ l. (turned s).tx ++ l) (take-append-drop (room s) rest))
        ∙ append_assoc s.taken (take (plan s.turn) s.tx) ((turned s).tx ++ rest)
        ∙ ap (λ l. s.taken ++ l)
            (sym (append_assoc (take (plan s.turn) s.tx) (drop (plan s.turn) s.tx) rest)
              ∙ ap (λ l. l ++ rest) (take-append-drop (plan s.turn) s.tx))
        ∙ v.order;
  }

  -- A turn with words left.
  feed_from-turn :
      (polls total : ℕ) (rest : List ℕ) (s : Sink)
      → length s.tx ≤ depth
      → (length rest == 0) ≡ false
      → feed_from (device_port (sink plan)) (suc polls) total rest s
        ≡ feed_from (device_port (sink plan)) polls total (drop (room s) rest) (fed rest s)
  unfolding feed_from
  feed_from-turn polls total rest s h e =
      rw (feed_from, e)
        (bind_ok (tx_level (device_port (sink plan)))
            (λ level.
              push_room (device_port (sink plan)) rest (depth - level)
              >>= feed_from (device_port (sink plan)) polls total)
            s (turned s) (length (turned s).tx) (tx_level-turned s h)
          ∙ bind_ok (push_room (device_port (sink plan)) rest (room s))
              (feed_from (device_port (sink plan)) polls total) (turned s) (fed rest s)
              (drop (room s) rest) (push_room-fed rest s h))

  -- How `feed` may end.
  abbrev pub Fed : List ℕ → Result (Unit {0}) × Sink → Type 0
  Fed words (r, t) =
      (t.lost ≡ false)
      × (((r ≡ ok tt) × (t.taken ++ t.tx ≡ words)) ⊎ ((n : ℕ) × (r ≡ err (short n (length words)))))

  feed_from-Fed :
      (polls : ℕ) (words rest : List ℕ) (s : Sink)
      → Inv words rest s
      → Fed words (feed_from (device_port (sink plan)) polls (length words) rest s)
  unfolding feed_from
  feed_from-Fed zero words rest s v = (v.kept, inr (length words - length rest, refl))
  feed_from-Fed (suc polls) words [] s v =
      (v.kept, inl (refl, ap (λ l. s.taken ++ l) (sym (append-nil s.tx)) ∙ v.order))
  feed_from-Fed (suc polls) words (w ∷ rest) s v =
      subst (λ x. Fed words x)
        (sym (feed_from-turn polls (length words) (w ∷ rest) s v.in_depth (ground arith)))
        (feed_from-Fed polls words (drop (room s) (w ∷ rest)) (fed (w ∷ rest) s)
          (fed-Inv words (w ∷ rest) s v))

  feed_from_ends :
      ((k : ℕ) → 0 < plan k)
      → (polls total : ℕ) (rest : List ℕ) (s : Sink) → length s.tx ≤ depth
      → length rest < polls
      → (feed_from (device_port (sink plan)) polls total rest s).0 ≡ ok tt
  unfolding feed_from
  feed_from_ends live zero total rest s h e = elim (no_poll e) [ ]
    where
      no_poll : length rest < 0 → ⊥
      no_poll e = omega (arith, e)
  feed_from_ends live (suc polls) total [] s h e = refl
  feed_from_ends live (suc polls) total (w ∷ rest) s h e =
      ap (λ x. x.0) (feed_from-turn polls total (w ∷ rest) s h (ground arith))
      ∙ feed_from_ends live polls total (drop (room s) (w ∷ rest)) (fed (w ∷ rest) s)
          (omega (
            arith,
            length-append (turned s).tx (take (room s) (w ∷ rest)),
            length-take (room s) (w ∷ rest),
            length-drop (plan s.turn) s.tx,
            h,
          ))
          (omega (
            arith,
            length-drop (room s) (w ∷ rest),
            length-drop (plan s.turn) s.tx,
            live s.turn,
            h,
            e,
          ))

-- An empty sink that lost nothing.
pub record IsEmpty (s : Sink) : Type 0 where
  pub none_waits : s.tx ≡ []
  pub none_taken : s.taken ≡ []
  pub none_lost : s.lost ≡ false

-- `feed` on an empty fifo, at any timing of an engine that only takes words: no word is lost, and
-- either it returns and the words taken and those that wait are all the words, in order, or it
-- raises when its polls are used up.
pub feed_lem :
    (plan : ℕ → ℕ) (words : List ℕ) (polls : ℕ) (s : Sink)
    → IsEmpty s
    → Fed plan words (feed (device_port (sink plan)) words polls s)
unfolding feed
feed_lem plan words polls s v = feed_from-Fed plan polls words words s (record {
  in_depth = omega (arith, ap length v.none_waits);
  kept = v.none_lost;
  order = rw (v.none_waits, v.none_taken) refl;
})

-- On an empty fifo, where the engine takes a word at least between two looks at the status and
-- there are more polls than words, `feed` returns.
pub feed_ends :
    (plan : ℕ → ℕ) (words : List ℕ) (polls : ℕ) (s : Sink)
    → IsEmpty s
    → ((k : ℕ) → 0 < plan k)
    → length words < polls
    → (feed (device_port (sink plan)) words polls s).0 ≡ ok tt
unfolding feed
feed_ends plan words polls s v live e =
    feed_from_ends plan live polls (length words) words s (omega (arith, ap length v.none_waits)) e
