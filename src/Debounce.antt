-- ===== src/Debounce.antt =====
-- src/lsp/handlers/handleDidChange.cpp: how long the language server waits before it parses a changed
-- file again. One file's state, and the server's flag `processing_didChange`. Times are unsigned
-- numbers of 64 bits, the debounce time one of 32.
pub mod Bounds
pub mod Flag
use bashpp.Prelude.{
  ℕ, ◌+◌, ◌*◌, ◌/◌, ◌%◌, ◌^◌, Bool, true, false, not, ◌==◌, if◌then◌else◌, ltb, List, [], ◌∷◌,
  Option, Text,
}
use bashpp.ProgramPool.{Document, Pool, re_parse_programs}
use bashpp.ProgramPool.Files.{set_unsaved_file_contents}

-- `DebounceState`, with the flag.
pub record Debounce : Type 0 where
  pub change_generation : ℕ
  pub average_reparse_time : ℕ
  pub debounce_time : ℕ
  pub processing : Bool

-- What the handler does for an accepted change; the generation it answers is its thread's.
unfoldable pub did_change : Debounce → Debounce × ℕ
did_change s =
    let generation = (s.change_generation + 1) % 18446744073709551616 in
    (record s { change_generation = generation; processing = true }, generation)

-- The moving average, in microseconds, with weight 1/4 for the new duration.
unfoldable pub new_average : ℕ → ℕ → ℕ
new_average previous duration =
    if previous == 0 then duration else ((previous * 3 + duration) % 18446744073709551616) / 4

-- `std::clamp(…, 25, 1000)`
abbrev pub clamp : ℕ → ℕ
clamp time = if ltb time 25 then 25 else if ltb 1000 time then 1000 else time

unfoldable pub new_debounce_time : ℕ → ℕ
new_debounce_time average = clamp ((100 + (3 * (average / 1000)) / 4) % 4294967296)

-- What the thread does with what was parsed again, unless that is an empty vector; a null pointer in it
-- counts.
unfoldable pub finish_change : List (Option Document) → ℕ → Debounce → Debounce
unfolding new_average new_debounce_time
finish_change programs duration s =
    let average = new_average s.average_reparse_time duration in
    let finished = record s {
      average_reparse_time = average;
      debounce_time = new_debounce_time average;
      processing = false;
    } in
    elim programs [ [] ↦ s | d ∷ ds ↦ finished ]

-- The thread of a change, when its time is over: `parse` is the pool's, and `duration` what
-- `re_parse_programs` takes.
unfoldable pub run_change :
    (Text → (Text → Option Text) → Option Document)
    → ℕ
    → Text
    → Text
    → ℕ
    → Debounce × Pool
    → Debounce × Pool
unfolding finish_change
run_change parse generation uri new_content duration (s, p) =
    let (p', programs) =
      re_parse_programs parse uri (set_unsaved_file_contents uri new_content p) in
    if not (s.change_generation == generation)
    then (s, p)
    else (finish_change programs duration s, p')
