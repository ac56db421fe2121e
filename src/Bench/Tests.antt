-- ===== src/Bench/Tests.antt =====
-- The theorems on the exchange with an engine that adds one to each word.
use protocol_emulator.Base.{
  ℕ, suc, ◌+◌, ◌≡◌, ◌⊎◌, refl, false, List, [], ◌∷◌, arith, ok, err, short, map,
}
use protocol_emulator.Host.Device.{device_port}
use protocol_emulator.Host.Fifo.{Fifos, fifos, IsSound}
use protocol_emulator.Bench.{exchange, feed}
use protocol_emulator.Bench.Feed.{Sink, sink, Fed, IsEmpty, feed_lem, feed_ends}
use protocol_emulator.Bench.Exchange.{exchange_safe, exchange_answers}

abbrev idle : Fifos
idle = record { tx = []; rx = []; low = 1; high = 0; lost = false; turn = 0 }

idle-IsSound : IsSound idle
idle-IsSound = record { low_bits = omega arith; in_depth = omega arith; kept = refl }

abbrev sent : List ℕ
sent = 5 ∷ 6 ∷ 7 ∷ []

exchange_safe_example :
    let (r, t) = exchange (device_port (fifos (λ w. w + 1) (λ k. k))) sent 2 idle in
    IsSound t × ((r ≡ ok (map (λ w. w + 1) sent)) ⊎ ((n : ℕ) × (r ≡ err (short n 3))))
exchange_safe_example = exchange_safe (λ w. w + 1) (λ k. k) sent 2 idle idle-IsSound refl

exchange_answers_example :
    (exchange (device_port (fifos (λ w. w + 1) (λ k. suc k))) sent 4 idle).0 ≡ ok (6 ∷ 7 ∷ 8 ∷ [])
exchange_answers_example =
    exchange_answers (λ w. w + 1) (λ k. suc k) sent 4 idle idle-IsSound refl (λ k. omega arith)
      (omega arith)

abbrev empty : Sink
empty = record { tx = []; taken = []; lost = false; turn = 0 }

empty-IsEmpty : IsEmpty empty
empty-IsEmpty = record { none_waits = refl; none_taken = refl; none_lost = refl }

feed_lem_example : Fed (λ k. k) sent (feed (device_port (sink (λ k. k))) sent 2 empty)
feed_lem_example = feed_lem (λ k. k) sent 2 empty empty-IsEmpty

feed_ends_example : (feed (device_port (sink (λ k. suc k))) sent 4 empty).0 ≡ ok tt
feed_ends_example =
    feed_ends (λ k. suc k) sent 4 empty empty-IsEmpty (λ k. omega arith) (omega arith)
