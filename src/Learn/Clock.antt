-- ===== src/Learn/Clock.antt =====
-- The clock that the recording keeps of an engine is the engine's, as far as it runs.
use protocol_emulator.Base.{
  ℕ, true, ◌+◌, ◌-◌, ◌*◌, ◌%◌, ◌/◌, ◌≤◌, ◌<◌, ◌≡◌, refl, sym, ap, ◌∙◌, List, [], ◌∷◌, ◌++◌, map,
  append-nil, append_assoc, All, length, length-append, length-map, take-length, arith, Result, ok,
  err,
}
use mathlib.Core.List.{map-append}
use protocol_emulator.Base.Int.{pos}
use protocol_emulator.Learn.{
  Line, most, kept, small_ints, all_small, take_drain, advance, stamp_time, wraps, ticks_diff,
}

-- A drain as it really went: the cycle at which the clock was read, the Pico's microseconds then, and
-- the cycles of the edges whose stamps it took.
pub record Drain : Type 0 where
  pub cycle : ℕ
  pub us : ℕ
  pub edges : List ℕ

-- g microseconds of a wrapping counter went by, which are the cycles to within half a turn of the clock;
-- those, and all cycles, are small ints.
pub record IsTimed (cycle us : ℕ) (d : Drain) (g : ℕ) : Type 0 where
  pub ordered : cycle ≤ d.cycle
  pub short : 48 * g + 32768 < small_ints
  pub small : d.cycle < small_ints
  pub counted : d.us ≡ (us + g) % 1073741824
  pub not_behind : d.cycle ≤ cycle + 48 * g + 32768
  pub not_ahead : 48 * g + cycle < d.cycle + 32768

-- No edge is a turn of the clock older than the read.
abbrev pub IsRecent : ℕ → ℕ → Type 0
IsRecent cycle edge = (edge ≤ cycle) × (cycle < edge + 65536)

abbrev pub AreTrue : ℕ → ℕ → List Drain → Type 0
AreTrue cycle us [] = Unit
AreTrue cycle us (d ∷ ds) =
    ((g : ℕ) × IsTimed cycle us d g) × All (IsRecent d.cycle) d.edges × AreTrue d.cycle d.us ds

abbrev pub all_edges : List Drain → List ℕ
all_edges [] = []
all_edges (d ∷ ds) = d.edges ++ all_edges ds

-- The words that the chip gives for edges.
abbrev pub words_of : List ℕ → List ℕ
words_of edges = map (λ t. t % 65536) edges

abbrev pub take_drains : List Drain → Line → Result Line
take_drains [] l = ok l
take_drains (d ∷ ds) l = elim (take_drain (words_of d.edges) (d.cycle % 65536) d.us l) [
  | ok l' ↦ take_drains ds l'
  | err e ↦ err e
]

ticks_diff_lem :
    (us g : ℕ) → us < 1073741824 → g < 536870912 → ticks_diff ((us + g) % 1073741824) us ≡ pos g
unfolding ticks_diff
ticks_diff_lem us g p q = ground arith

wraps_lem :
    (g n low : ℕ)
    → n * 65536 + low ≤ 48 * g + 32768
    → 48 * g < n * 65536 + low + 32768
    → wraps (pos g) low ≡ pos n
unfolding wraps
wraps_lem g n low p q = ground arith

advance_lem :
    (g c d : ℕ)
    → c ≤ d
    → d ≤ c + 48 * g + 32768
    → 48 * g + c < d + 32768
    → c + advance (pos g) (c % 65536) (d % 65536) ≡ d
unfolding advance
advance_lem g c d p q r =
    let low = (d % 65536 + 65536 - c % 65536) % 65536 in
    ground (arith, wraps_lem g ((d - c) / 65536) low)

all_small_lem :
    (g low c : ℕ)
    → low < 65536
    → 48 * g + 32768 < small_ints
    → c < small_ints
    → all_small (pos g) low c ≡ true
unfolding all_small
all_small_lem g low c l h k = ground arith

stamp_time_lem : (d t : ℕ) → t ≤ d → d < t + 65536 → stamp_time d (d % 65536) (t % 65536) ≡ pos t
unfolding stamp_time
stamp_time_lem d t p q = ground arith

stamp_times_lem :
    (d : ℕ) (edges : List ℕ)
    → All (IsRecent d) edges
    → map (stamp_time d (d % 65536)) (words_of edges) ≡ map pos edges
stamp_times_lem d [] h = refl
stamp_times_lem d (t ∷ edges) h =
    ground (arith, stamp_time_lem d t h.0.0 h.0.1, stamp_times_lem d edges h.1)

-- The line's clock is right.
pub record IsAt (cycle us : ℕ) (l : Line) : Type 0 where
  pub clock_right : l.clock ≡ cycle
  pub last_right : l.last ≡ cycle % 65536
  pub us_right : l.then_us ≡ us
  pub us_wraps : us < 1073741824

kept_all : (l : Line) (words : List ℕ) → length l.words + length words ≤ most → kept l words ≡ words
kept_all l words h = take-length (most - length l.words) words (omega arith)

-- The line behind a drain.
abbrev drained : Drain → Line → Line
drained d l = record l {
  words = l.words ++ words_of d.edges;
  times = l.times ++ map pos d.edges;
  last = d.cycle % 65536;
  clock = d.cycle;
  then_us = d.us;
}

take_drain_lem :
    (cycle us g : ℕ) (d : Drain) (l : Line)
    → IsAt cycle us l
    → IsTimed cycle us d g
    → All (IsRecent d.cycle) d.edges
    → length l.words + length d.edges ≤ most
    → take_drain (words_of d.edges) (d.cycle % 65536) d.us l ≡ ok (drained d l)
unfolding take_drain
take_drain_lem cycle us g d l at timed recent room =
    let low : ℕ = (d.cycle % 65536 + 65536 - l.last) % 65536 in
    ground (
      arith,
      kept_all l (words_of d.edges),
      length-map (λ t. t % 65536) d.edges,
      ticks_diff_lem us g at.us_wraps,
      advance_lem g cycle d.cycle,
      stamp_times_lem d.cycle d.edges recent,
      all_small_lem g low d.cycle,
    )

-- Whatever the words of a drain, the line's clock is right behind it.
pub take_drain-IsAt :
    (cycle us g : ℕ) (d : Drain) (words : List ℕ) (l : Line)
    → IsAt cycle us l
    → IsTimed cycle us d g
    → (after : Line) × (take_drain words (d.cycle % 65536) d.us l ≡ ok after)
      × (after.engine ≡ l.engine)
      × IsAt d.cycle d.us after
unfolding take_drain
take_drain-IsAt cycle us g d words l at timed =
    let low : ℕ = (d.cycle % 65536 + 65536 - l.last) % 65536 in
    let clock' : ℕ = l.clock + advance (ticks_diff d.us l.then_us) l.last (d.cycle % 65536) in
    let gap : ticks_diff d.us l.then_us ≡ pos g = ground (arith, ticks_diff_lem us g at.us_wraps) in
    let right : clock' ≡ d.cycle = ground (arith, gap, advance_lem g cycle d.cycle) in
    let fits : all_small (ticks_diff d.us l.then_us) low clock' ≡ true =
      ground (arith, gap, right, all_small_lem g low d.cycle) in
    (
      record l {
        words = l.words ++ kept l words;
        times = l.times ++ map (stamp_time clock' (d.cycle % 65536)) (kept l words);
        last = d.cycle % 65536;
        clock = clock';
        then_us = d.us;
      },
      rw fits refl,
      refl,
      record {
        clock_right = right;
        last_right = refl;
        us_right = refl;
        us_wraps = omega (arith, timed.counted);
      },
    )

-- Of a line whose clock is right, and drains with room for their stamps, each within half a turn
-- of the clock of what the Pico's microseconds say and with no stamp a turn old, and as long as
-- the cycles and the products of the microseconds stay ints of 31 bits: no drain raises for the
-- locked heap, and the times that the line records are the cycles of the edges, in order.
pub take_drains_lem :
    (cycle us : ℕ) (ds : List Drain) (l : Line)
    → IsAt cycle us l
    → AreTrue cycle us ds
    → length l.words + length (all_edges ds) ≤ most
    → (after : Line) × (take_drains ds l ≡ ok after)
      × (after.times ≡ l.times ++ map pos (all_edges ds))
take_drains_lem cycle us [] l at h room = (l, refl, sym (append-nil l.times))
take_drains_lem cycle us (d ∷ ds) l at ((g, timed), recent, rest) room =
    let r = length-append d.edges (all_edges ds) in
    let w = length-append l.words (words_of d.edges) in
    let m = length-map (λ t. t % 65536) d.edges in
    let one = take_drain_lem cycle us g d l at timed recent (omega (arith, r)) in
    let (end, same, times) =
      take_drains_lem d.cycle d.us ds (drained d l)
        (record {
          clock_right = refl;
          last_right = refl;
          us_right = refl;
          us_wraps = omega (arith, timed.counted);
        })
        rest (omega (arith, r, w, m)) in
    (
      end,
      rw (take_drains, one) same,
      times
          ∙ append_assoc l.times (map pos d.edges) (map pos (all_edges ds))
          ∙ ap (λ t. l.times ++ t) (sym (map-append pos d.edges (all_edges ds))),
    )
