-- ===== src/Lab/Tests.antt =====
-- The remote lab's bookkeeping at concrete submissions.
use protocol_emulator.Base.{ℕ, ◌≡◌, refl, List, [], ◌∷◌, some, true, arith, map}
use protocol_emulator.Lab.{Limits, Run, Row, bench, rtl, model, duplicate, no_run, count}
use protocol_emulator.Lab.Worker.{Worker, Job, certified, on_bench, process}
use protocol_emulator.Lab.Compare.{Change, compare, matches}
use protocol_emulator.Lab.Admitted.{IsAdmitted, process_all, process_all-IsAdmitted}

abbrev two_an_hour : Limits
two_an_hour = record { jobs_hour = 30; bench_hour = 2; bench_day = 10; all_bench_hour = 30 }

abbrev fresh_worker : Worker
fresh_worker = record { rows = []; errors = 0; down_until = 0; sealed = [] }

abbrev job : ℕ → ℕ → Job
job now ident = record {
  now = now;
  who = "ada";
  ident = ident;
  is_text = true;
  checked = some (certified, true);
  healthy = true;
  run_ok = true;
}

abbrev submitted : List Job
submitted = job 1000000 1 ∷ job 2000000 2 ∷ job 3000000 3 ∷ job 3602000000 4 ∷ []

-- The third run within the hour gets the model; an hour after the second there is room again.
runs_test :
    map (λ r. r.run) (process_all two_an_hour on_bench submitted fresh_worker).rows
    ≡ bench ∷ bench ∷ model ∷ bench ∷ []
unfolding process_all process protocol_emulator.Lab.jobs count protocol_emulator.Lab.bench_limit
    protocol_emulator.Lab.counts
runs_test = refl

no_rows-IsAdmitted : IsAdmitted two_an_hour 0 []
unfolding count
no_rows-IsAdmitted = record {
  within_hour = λ who later l. omega arith;
  within_day = λ who later l. omega arith;
  within_all = λ later l. omega arith;
}

process_all-IsAdmitted_example :
    IsAdmitted two_an_hour 3602000001 (process_all two_an_hour on_bench submitted fresh_worker).rows
process_all-IsAdmitted_example =
    process_all-IsAdmitted two_an_hour on_bench 0 3602000001 submitted fresh_worker
      (omega arith, (omega arith, (omega arith, (omega arith, omega arith)))) no_rows-IsAdmitted

abbrev change : ℕ → ℕ → Change
change at level = record { at = at; level = level }

-- At 24 MHz; the capture has a pulse of its own before the model's three changes.
abbrev captured : List Change
captured = change 10 0 ∷ change 20 1 ∷ change 1020 0 ∷ change 1044 1 ∷ change 1092 0 ∷ []

compare_test :
    compare 24000000 (change 0 0 ∷ change 1000 1 ∷ change 3000 0 ∷ []) captured ≡ matches 2 0 0
unfolding compare
compare_test = refl
