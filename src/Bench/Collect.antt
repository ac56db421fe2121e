-- ===== src/Bench/Collect.antt =====
-- `send_some` and `collect`, the halves of a turn of `bench.exchange`, against an answering engine.
use protocol_emulator.Base.{
  ℕ, zero, suc, ◌+◌, ◌≤◌, ◌<◌, ◌≡◌, refl, ◌≢◌, ◌∙◌, ap, sym, inl, inr, List, [], ◌∷◌, ◌++◌,
  append-nil, append_assoc, map, arith, ok, length, take, drop, ◌==◌, length-take, length-drop,
  take-nil, drop-nil, take-append-drop, Bool-cases,
}
use protocol_emulator.Host.Device.{device_port}
use protocol_emulator.Host.Methods.{push}
use protocol_emulator.Host.Fifo.{
  Fifos, IsSound, fifos, poll, pending, work_lem, again, levels, IsSound-IsWithin, pop_arrived,
  push_lem,
}
use protocol_emulator.Bench.{depth, send_some, collect}

abbrev pub in_flight : Fifos → ℕ
in_flight s = length s.tx + length s.rx

drop_rx-IsSound : (n : ℕ) (s : Fifos) → IsSound s → IsSound (record s { rx = drop n s.rx })
drop_rx-IsSound n s v = record {
  low_bits = v.low_bits;
  in_depth = omega (arith, length-drop n s.rx);
  kept = v.kept;
}

drop_rx-pending :
    (answer : ℕ → ℕ) (n : ℕ) (s : Fifos)
    → take n s.rx ++ pending answer (record s { rx = drop n s.rx }) ≡ pending answer s
drop_rx-pending answer n s =
    sym (append_assoc (take n s.rx) (drop n s.rx) (map answer s.tx))
    ∙ ap (λ rx. rx ++ map answer s.tx) (take-append-drop n s.rx)

module _ (answer : ℕ → ℕ) (plan : ℕ → ℕ) where
  pub send_some_lem :
      (rest : List ℕ) (room : ℕ) (s : Fifos)
      → length s.tx + room ≤ depth
      → send_some (device_port (fifos answer plan)) rest room s
        ≡ (ok (drop room rest), record s { tx = s.tx ++ take room rest })
  unfolding send_some push
  send_some_lem [] room s v = rw (take-nil {A = ℕ} room, drop-nil {A = ℕ} room, append-nil) refl
  send_some_lem (w ∷ rest) zero s v = ground (arith, append-nil s.tx)
  send_some_lem (w ∷ rest) (suc room) s v = ground (
    arith,
    push_lem answer plan (take (suc room) (w ∷ rest)) s,
    length-take (suc room) (w ∷ rest),
  )

  -- What a turn's `collect` does, at any timing.
  pub record Collects (replies : List ℕ) (s : Fifos) : Type 0 where
    pub more : List ℕ
    pub after : Fifos
    pub gives : collect (device_port (fifos answer plan)) replies s ≡ (ok (replies ++ more), after)
    pub sound : IsSound after
    pub order : more ++ pending answer after ≡ pending answer s
    pub balance : length more + in_flight after ≡ in_flight s
    pub progress : ((k : ℕ) → 0 < plan k) → 0 < in_flight s → 0 < length more

  collect_none :
      (replies : List ℕ) (s : Fifos)
      → IsSound (poll answer plan s)
      → length (poll answer plan s).rx ≡ 0
      → collect (device_port (fifos answer plan)) replies s
        ≡ (ok (replies ++ []), poll answer plan s)
  unfolding collect
  collect_none replies s v e =
      ground (arith, levels (poll answer plan s) (IsSound-IsWithin (poll answer plan s) v))

  collect_some :
      (replies : List ℕ) (s : Fifos)
      → IsSound (poll answer plan s)
      → length (poll answer plan s).rx ≢ 0
      → let n = length (poll answer plan s).rx in
        let t = poll answer plan (poll answer plan s) in
        n ≤ length t.rx
        → collect (device_port (fifos answer plan)) replies s
          ≡ (ok (replies ++ take n t.rx), record t { rx = drop n t.rx })
  unfolding collect
  collect_some replies s v e h =
      let t = poll answer plan s in
      ground (arith, levels t (IsSound-IsWithin t v), pop_arrived answer plan (length t.rx) t v)

  polled :
      (s : Fifos)
      → IsSound s
      → let t = poll answer plan s in
        IsSound t
        × (pending answer t ≡ pending answer s)
        × (in_flight t ≡ in_flight s)
        × (length s.rx ≤ length t.rx)
        × (((k : ℕ) → 0 < plan k) → 0 < in_flight s → 0 < length t.rx)
  polled s v =
      let (sound, order, balance, grown, busy) =
        work_lem answer (plan s.turn) (record s { turn = suc s.turn }) (again s v) in
      (sound, order, balance, grown, λ p h. busy (p s.turn) h)

  pub collect_lem : (replies : List ℕ) (s : Fifos) → IsSound s → Collects replies s
  collect_lem replies s v =
      let (sound1, order1, balance1, grown1, busy1) = polled s v in
      let t1 : Fifos = poll answer plan s in
      let (sound2, order2, balance2, grown2, busy2) = polled t1 sound1 in
      let t2 : Fifos = poll answer plan t1 in
      let n : ℕ = length t1.rx in
      elim (Bool-cases (n == 0)) [
        | inl none_yet ↦ record {
          more = [];
          after = t1;
          gives = collect_none replies s sound1 (ground arith);
          sound = sound1;
          order = order1;
          balance = omega arith;
          progress = λ p h. absurd (ground (arith, busy1 p h));
        }
        | inr some_in ↦ record {
          more = take n t2.rx;
          after = record t2 { rx = drop n t2.rx };
          gives = collect_some replies s sound1 (ground arith) grown2;
          sound = drop_rx-IsSound n t2 sound2;
          order = rw drop_rx-pending (order2 ∙ order1);
          balance = omega (arith, length-take n t2.rx, length-drop n t2.rx);
          progress = λ p h. omega (arith, busy1 p h, length-take n t2.rx);
        }
      ]
