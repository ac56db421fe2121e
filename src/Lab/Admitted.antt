-- ===== src/Lab/Admitted.antt =====
-- The bench is not given more runs than the limits allow, whatever is submitted.
use Prim.Native.String.{String}
use protocol_emulator.Base.{
  ℕ, ◌≤◌, ◌<◌, ◌≡◌, refl, sym, ap, Bool, true, false, ◌&&◌, not, List, [], ◌∷◌, ◌++◌, none, some,
  if◌then◌else◌, arith, Bool-cases, inl, inr, subst,
}
use protocol_emulator.Lab.{
  Run, model, duplicate, no_run, Row, Limits, hour, day, on_bench, count, bench_limit,
}
use protocol_emulator.Lab.Worker.{
  Worker, Job, Backend, process, choose, run_of, verdict_of, is_model, is_certified, is_sealed,
  is_rate_limited,
}
use protocol_emulator.Lab.Count.{counts-model, stays, grows, own_grows}

-- Whoever submits: the bench and RTL runs of the last hour and day are within the limits, from now on.
pub record IsAdmitted (limits : Limits) (now : ℕ) (rows : List Row) : Type 0 where
  pub within_hour :
      (who : String) (later : ℕ)
      → now ≤ later
      → count later hour (some who) true rows ≤ limits.bench_hour
  pub within_day :
      (who : String) (later : ℕ)
      → now ≤ later
      → count later day (some who) true rows ≤ limits.bench_day
  pub within_all :
      (later : ℕ) → now ≤ later → count later hour none true rows ≤ limits.all_bench_hour

module _ (limits : Limits) where
  bench_limit-none :
      (who : String) (now : ℕ) (rows : List Row)
      → bench_limit limits who now rows ≡ none
      → (count now hour (some who) true rows < limits.bench_hour)
        × (count now day (some who) true rows < limits.bench_day)
        × (count now hour none true rows < limits.all_bench_hour)
  unfolding bench_limit
  bench_limit-none who now rows h = ground arith

  module _ (now : ℕ) (rows : List Row) (a : IsAdmitted limits now rows) (r : Row) where
    one_more_model : on_bench r.run ≡ false → IsAdmitted limits now (rows ++ r ∷ [])
    one_more_model h = record {
      within_hour = λ who later l.
          stays now later hour limits.bench_hour rows r l (some who)
            (counts-model later hour (some who) r h) (a.within_hour who later l);
      within_day = λ who later l.
          stays now later day limits.bench_day rows r l (some who)
            (counts-model later day (some who) r h) (a.within_day who later l);
      within_all = λ later l.
          stays now later hour limits.all_bench_hour rows r l none
            (counts-model later hour none r h) (a.within_all later l);
    }

    one_more_bench :
        bench_limit limits r.who now rows ≡ none → IsAdmitted limits now (rows ++ r ∷ [])
    one_more_bench h =
        let room = bench_limit-none r.who now rows h in
        record {
          within_hour = λ who later l.
              own_grows now later hour limits.bench_hour rows r l who (a.within_hour who later l)
                room.0;
          within_day = λ who later l.
              own_grows now later day limits.bench_day rows r l who (a.within_day who later l)
                room.1;
          within_all = λ later l. grows now later hour limits.all_bench_hour rows r l none room.2;
        }

  IsAdmitted-later :
      (now later : ℕ) (rows : List Row)
      → now ≤ later
      → IsAdmitted limits now rows
      → IsAdmitted limits later rows
  IsAdmitted-later now later rows h a = record {
    within_hour = λ who t l. a.within_hour who t (omega arith);
    within_day = λ who t l. a.within_day who t (omega arith);
    within_all = λ t l. a.within_all t (omega arith);
  }

  kept_run :
      (run : Run) (ran : Bool) → on_bench (if ran then run else model) ≡ true → on_bench run ≡ true
  unfolding on_bench
  kept_run run true h = h
  kept_run run false h = cc

  module _ (backend : Backend) where
    choose_bench :
        (takes : Bool) (j : Job) (w : Worker)
        → on_bench (choose limits backend takes j w).0 ≡ true
        → bench_limit limits j.who j.now w.rows ≡ none
    unfolding choose on_bench
    choose_bench takes j w h = ground (arith, h)

    run_of-rows :
        (takes : Bool) (j : Job) (w : Worker) → (run_of limits backend takes j w).0.rows ≡ w.rows
    unfolding run_of
    run_of-rows takes j w = ground arith

    run_of_bench :
        (takes : Bool) (j : Job) (w : Worker)
        → on_bench (run_of limits backend takes j w).1 ≡ true
        → bench_limit limits j.who j.now w.rows ≡ none
    unfolding run_of
    run_of_bench takes j w h =
        choose_bench takes j w (elim (Bool-cases (is_model (choose limits backend takes j w).0)) [
          | inl e ↦ rw (run_of, e) at h
          | inr e ↦ kept_run (choose limits backend takes j w).0 j.run_ok (rw (run_of, e) at h)
        ])

    -- One row is logged, and it is the bench's only within the limits.
    process-rows :
        (j : Job) (w : Worker)
        → (run : Run) × ((process limits backend j w).rows
            ≡ w.rows ++ record { at = j.now; who = j.who; ident = j.ident; run = run } ∷ [])
          × (on_bench run ≡ true → bench_limit limits j.who j.now w.rows ≡ none)
    unfolding process
    process-rows j w = elim (Bool-cases duplicated) [
      | inl e ↦ (duplicate, rw (process, e) refl, λ h. cc (no_bench h))
      | inr e ↦ elim (Bool-cases (is_certified (verdict_of limits backend j w).0)) [
        | inl c ↦ (
          (run_of limits backend takes j w).1,
          rw (process, e, c)
              (ap (λ t. t ++ one_row (run_of limits backend takes j w).1) (run_of-rows takes j w)),
          run_of_bench takes j w,
        )
        | inr c ↦ (no_run, rw (process, e, c) refl, λ h. cc (no_bench' h))
      ]
    ]
      where
        takes : Bool
        takes = (verdict_of limits backend j w).1

        one_row : Run → List Row
        one_row run = record { at = j.now; who = j.who; ident = j.ident; run = run } ∷ []

        duplicated : Bool
        duplicated =
            is_sealed j.ident w.sealed && not (is_rate_limited (verdict_of limits backend j w).0)

        no_bench : on_bench duplicate ≡ true → false ≡ true
        no_bench h = unfold on_bench in h

        no_bench' : on_bench no_run ≡ true → false ≡ true
        no_bench' h = unfold on_bench in h

    process-IsAdmitted :
        (now : ℕ) (j : Job) (w : Worker)
        → now ≤ j.now
        → IsAdmitted limits now w.rows
        → IsAdmitted limits j.now (process limits backend j w).rows
    process-IsAdmitted now j w l a =
        let (run, same, room) = process-rows j w in
        let row : Row = record { at = j.now; who = j.who; ident = j.ident; run = run } in
        let a' = IsAdmitted-later now j.now w.rows l a in
        subst (λ rows. IsAdmitted limits j.now rows) (sym same)
          (elim (Bool-cases (on_bench run)) [
            | inl b ↦ one_more_bench j.now w.rows a' row (room b)
            | inr b ↦ one_more_model j.now w.rows a' row b
          ])

    -- The jobs of a worker come in the order of time.
    abbrev InTime : ℕ → ℕ → List Job → Type 0
    InTime now end [] = now ≤ end
    InTime now end (j ∷ js) = (now ≤ j.now) × InTime j.now end js

    unfoldable pub process_all : List Job → Worker → Worker
    process_all [] w = w
    process_all (j ∷ js) w = process_all js (process limits backend j w)

    -- Of submissions in the order of time, whoever sends them and whatever the checker, the
    -- backend and its health are: if by now no submitter has more runs on the bench or the RTL in
    -- the log than the limits for an hour and a day, and all together no more than theirs for an
    -- hour, then that is so after all of them too.
    pub process_all-IsAdmitted :
        (now end : ℕ) (js : List Job) (w : Worker)
        → InTime now end js
        → IsAdmitted limits now w.rows
        → IsAdmitted limits end (process_all js w).rows
    unfolding process_all
    process_all-IsAdmitted now end [] w t a = IsAdmitted-later now end w.rows t a
    process_all-IsAdmitted now end (j ∷ js) w t a =
        process_all-IsAdmitted j.now end js (process limits backend j w) t.1
          (process-IsAdmitted now j w t.0 a)
