-- ===== src/Bench/Exchange.antt =====
-- `bench.exchange` against an engine that answers each word: whatever the timing of the two sides,
-- neither fifo overflows, and the replies are the answers in order.
use protocol_emulator.Base.{
  ℕ, zero, suc, ◌+◌, ◌-◌, ◌≤◌, ◌<◌, ◌≡◌, refl, ◌∙◌, ap, sym, ◌⊎◌, inl, inr, true, false, List, [],
  ◌∷◌, ◌++◌, append_assoc, map, arith, ok, err, short, length, take, drop, ◌==◌, length-append,
  length-take, length-drop, length-map, append_whole, take-append-drop, Bool-cases,
}
use mathlib.Core.List.{map-append}
use protocol_emulator.Host.Device.{device_port}
use protocol_emulator.Host.Fifo.{Fifos, IsSound, fifos, pending}
use protocol_emulator.Bench.Collect.{in_flight, send_some_lem, Collects, collect_lem}
use protocol_emulator.Bench.{depth, exchange, exchange_turn, exchange_from}

-- The loop's invariant for a run that sends `words`.
module _ (answer : ℕ → ℕ) (plan : ℕ → ℕ) (words : List ℕ) where
  record Inv (rest replies : List ℕ) (s : Fifos) : Type 0 where
    sound : IsSound s
    balance : length replies + in_flight s + length rest ≡ length words
    order : replies ++ (pending answer s ++ map answer rest) ≡ map answer words

  abbrev sending : ℕ → List ℕ → Fifos → Fifos
  sending room rest s = record s { tx = s.tx ++ take room rest }

  send-Inv :
      (room : ℕ) (rest replies : List ℕ) (s : Fifos)
      → room + in_flight s ≤ depth
      → Inv rest replies s
      → Inv (drop room rest) replies (sending room rest s)
  send-Inv room rest replies s h v =
      let e : map answer rest ≡ map answer (take room rest) ++ map answer (drop room rest) =
        ap (map answer) (sym (take-append-drop room rest))
        ∙ map-append answer (take room rest) (drop room rest) in
      record {
        sound = record {
          low_bits = v.sound.low_bits;
          in_depth = omega (arith, length-append s.tx (take room rest), length-take room rest);
          kept = v.sound.kept;
        };
        balance = omega (
          arith,
          length-append s.tx (take room rest),
          length-take room rest,
          length-drop room rest,
        );
        order = simp (map-append, append_assoc) (rw e at (simp append_assoc at v.order));
      }

  collect-Inv :
      (rest replies : List ℕ) (s : Fifos)
      → Inv rest replies s
      → (c : Collects answer plan replies s) → Inv rest (replies ++ c.more) c.after
  collect-Inv rest replies s v c =
      let q : replies ++ ((c.more ++ pending answer c.after) ++ map answer rest)
          ≡ map answer words =
        rw c.order v.order in
      record {
        sound = c.sound;
        balance = omega (arith, c.balance, length-append replies c.more);
        order = simp append_assoc (simp append_assoc at q);
      }

  -- One turn of the loop.
  record Turn (rest replies : List ℕ) (s : Fifos) : Type 0 where
    rest' : List ℕ
    replies' : List ℕ
    after : Fifos
    gives :
        exchange_turn (device_port (fifos answer plan)) (length words) rest replies s
        ≡ (ok (rest', replies'), after)
    inv : Inv rest' replies' after
    grows : length replies ≤ length replies'
    progress :
        ((k : ℕ) → 0 < plan k) → length replies < length words → length replies < length replies'

  turn_gives :
      (room : ℕ) (rest replies : List ℕ) (s : Fifos)
      → depth + length replies - (length words - length rest) ≡ room
      → length s.tx + room ≤ depth
      → (c : Collects answer plan replies (sending room rest s))
      → exchange_turn (device_port (fifos answer plan)) (length words) rest replies s
        ≡ (ok (drop room rest, replies ++ c.more), c.after)
  unfolding exchange_turn
  turn_gives room rest replies s e h c =
      rw e (ground (arith, send_some_lem answer plan rest room s h, c.gives))

  turn : (rest replies : List ℕ) (s : Fifos) → Inv rest replies s → Turn rest replies s
  turn rest replies s v =
      let room : ℕ = depth + length replies - (length words - length rest) in
      let t : Fifos = sending room rest s in
      let fits : room + in_flight s ≤ depth = omega (arith, v.balance, v.sound.in_depth) in
      let v' : Inv (drop room rest) replies t = send-Inv room rest replies s fits v in
      let c : Collects answer plan replies t = collect_lem answer plan replies t v'.sound in
      record {
        rest' = drop room rest;
        replies' = replies ++ c.more;
        after = c.after;
        gives = turn_gives room rest replies s refl (omega arith) c;
        inv = collect-Inv (drop room rest) replies t v' c;
        grows = omega (arith, length-append replies c.more);
        progress = λ p h. omega (
          arith,
          c.progress p (omega (arith, length-append s.tx (take room rest), length-take room rest)),
          length-append replies c.more,
        );
      }

  -- With as many replies as words the replies are the answers.
  complete :
      (rest replies : List ℕ) (s : Fifos)
      → Inv rest replies s
      → (length replies == length words) ≡ true
      → replies ≡ map answer words
  complete rest replies s v e =
      append_whole replies (pending answer s ++ map answer rest) (map answer words) v.order
        (ground (arith, length-map answer words))

  module _ (polls : ℕ) (rest replies : List ℕ) (s : Fifos) (t : Turn rest replies s) where
    stepped_done :
        (length t.replies' == length words) ≡ true
        → exchange_from (device_port (fifos answer plan)) (suc polls) (length words) rest replies s
          ≡ (ok t.replies', t.after)
    unfolding exchange_from
    stepped_done e = ground (arith, t.gives)

    stepped_more :
        (length t.replies' == length words) ≡ false
        → exchange_from (device_port (fifos answer plan)) (suc polls) (length words) rest replies s
          ≡ exchange_from
              (device_port (fifos answer plan))
              polls
              (length words)
              t.rest'
              t.replies'
              t.after
    unfolding exchange_from
    stepped_more e = ground (arith, t.gives)

  -- Whatever the timing, nothing is lost, and the loop gives the answers to the words in order or
  -- runs out of polls.
  from_safe :
      (polls : ℕ) (rest replies : List ℕ) (s : Fifos)
      → Inv rest replies s
      → let (r, t) =
          exchange_from (device_port (fifos answer plan)) polls (length words) rest replies s in
        IsSound t × ((r ≡ ok (map answer words)) ⊎ ((n : ℕ) × (r ≡ err (short n (length words)))))
  from_safe zero rest replies s v = unfold exchange_from in (v.sound, inr (length replies, refl))
  from_safe (suc polls) rest replies s v =
      let t : Turn rest replies s = turn rest replies s v in
      elim (Bool-cases (length t.replies' == length words)) [
        | inl e ↦
            rw (stepped_done polls rest replies s t e)
              (t.inv.sound, inl (ap ok (complete t.rest' t.replies' t.after t.inv e)))
        | inr e ↦
            rw (stepped_more polls rest replies s t e)
              (from_safe polls t.rest' t.replies' t.after t.inv)
      ]

  from_live :
      ((k : ℕ) → 0 < plan k)
      → (polls : ℕ) (rest replies : List ℕ) (s : Fifos) → Inv rest replies s
      → length words < polls + length replies
      → (exchange_from (device_port (fifos answer plan)) polls (length words) rest replies s).0
        ≡ ok (map answer words)
  from_live p zero rest replies s v h = absurd (omega (arith, v.balance))
  from_live p (suc polls) rest replies s v h =
      let t : Turn rest replies s = turn rest replies s v in
      elim (Bool-cases (length t.replies' == length words)) [
        | inl e ↦
            rw (stepped_done polls rest replies s t e)
              (ap ok (complete t.rest' t.replies' t.after t.inv e))
        | inr e ↦ rw (stepped_more polls rest replies s t e) (
            from_live p polls t.rest' t.replies' t.after t.inv
              (ground (arith, t.progress p, t.grows, t.inv.balance)))
      ]

  started : (s : Fifos) → IsSound s → in_flight s ≡ 0 → Inv words [] s
  started s v e = record {
    sound = v;
    balance = omega arith;
    order = ap (λ l. l ++ map answer words) (empty s.rx s.tx e);
  }
    where
      empty : (rx tx : List ℕ) → length tx + length rx ≡ 0 → rx ++ map answer tx ≡ []
      empty [] [] h = refl
      empty [] (w ∷ tx) h = absurd (omega arith)
      empty (w ∷ rx) tx h = absurd (omega arith)

-- `exchange` on empty fifos with nothing lost: at any timing it loses nothing, and gives each
-- word's answer in order or raises when its polls are used up.
pub exchange_safe :
    (answer : ℕ → ℕ) (plan : ℕ → ℕ) (words : List ℕ) (polls : ℕ) (s : Fifos)
    → IsSound s
    → in_flight s ≡ 0
    → let (r, t) = exchange (device_port (fifos answer plan)) words polls s in
      IsSound t × ((r ≡ ok (map answer words)) ⊎ ((n : ℕ) × (r ≡ err (short n (length words)))))
unfolding exchange
exchange_safe answer plan words polls s v e =
    from_safe answer plan words polls words [] s (started answer plan words s v e)

-- On empty fifos with nothing lost, an engine that takes at least a word between two looks at the
-- status answers all the words, where there are more polls than words.
pub exchange_answers :
    (answer : ℕ → ℕ) (plan : ℕ → ℕ) (words : List ℕ) (polls : ℕ) (s : Fifos)
    → IsSound s
    → in_flight s ≡ 0
    → ((k : ℕ) → 0 < plan k)
    → length words < polls
    → (exchange (device_port (fifos answer plan)) words polls s).0 ≡ ok (map answer words)
unfolding exchange
exchange_answers answer plan words polls s v e p h =
    from_live answer plan words p polls words [] s (started answer plan words s v e) (omega arith)
