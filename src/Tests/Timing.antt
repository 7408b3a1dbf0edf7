-- ===== src/Tests/Timing.antt =====
-- The debounce times of a file that takes 50 milliseconds to parse, and a change of a file that cannot be
-- parsed any more.
use bashpp.Prelude.{
  ◌+◌, ◌*◌, ◌/◌, ◌≤◌, ◌<◌, false, ◌&&◌, Option, none, ◌≡◌, ◌⊎◌, refl, arith, min, max, Text, lit,
}
use bashpp.ProgramPool.{Document, or_empty, is_known}
use bashpp.Debounce.{Debounce, did_change, run_change, new_average, new_debounce_time}
use bashpp.Debounce.Bounds.{new_average-quarter, new_debounce_time-formula}
use bashpp.Debounce.Flag.{all_fail, with_contents, run_change-processing}
use bashpp.Tests.Structures.{one_program}

abbrev initial : Debounce
initial = record {
  change_generation = 0;
  average_reparse_time = 50000;
  debounce_time = 100;
  processing = false;
}

new_debounce_time_run : new_debounce_time 50000 ≡ 137
unfolding new_debounce_time
new_debounce_time_run = refl

new_average-quarter_example :
    (new_average 0 90000 ≡ 90000)
    × (min 50000 90000 ≤ new_average 50000 90000)
    × (new_average 50000 90000 ≤ max 50000 90000)
    × (new_average 50000 90000 * 4 ≤ 50000 * 3 + 90000)
    × (50000 * 3 + 90000 < new_average 50000 90000 * 4 + 4)
new_average-quarter_example = new_average-quarter 50000 90000 (omega arith) (omega arith)

new_debounce_time-formula_example :
    (((1200 ≤ 50000 / 1000) × (new_debounce_time 50000 ≡ 1000))
      ⊎ ((50000 / 1000 < 1200)
          × (new_debounce_time 50000 * 4 ≤ 400 + 3 * (50000 / 1000))
          × (400 + 3 * (50000 / 1000) < new_debounce_time 50000 * 4 + 4)))
    × (100 ≤ new_debounce_time 50000)
    × (new_debounce_time 40000 ≤ new_debounce_time 50000)
new_debounce_time-formula_example =
    new_debounce_time-formula 40000 50000 (omega arith) (omega arith)

abbrev broken : Text → (Text → Option Text) → Option Document
broken file_path unsaved = none

run_change-processing_example :
    (run_change broken
      (did_change initial).1
      (lit "main")
      (lit "@")
      90000
      ((did_change initial).0, one_program)).0.processing
    ≡ (is_known (one_program.program_indices (lit "main"))
        && all_fail broken
            (with_contents (lit "main") (lit "@") one_program)
            one_program.programs
            (or_empty (one_program.program_indices (lit "main"))))
run_change-processing_example =
    run_change-processing broken initial one_program (lit "main") (lit "@") 90000
