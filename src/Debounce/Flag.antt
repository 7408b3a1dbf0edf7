-- ===== src/Debounce/Flag.antt =====
-- When a change leaves `processing_didChange` set: src/lsp/handlers/handleDidChange.cpp with
-- `re_parse_programs` of src/lsp/ProgramPool.cpp.
use bashpp.Prelude.{
  ℕ, Bool, true, false, ◌&&◌, ◌==◌, List, [], ◌∷◌, Option, none, some, ◌≡◌, refl, ◌∙◌, ap, map,
  get_elem?, Text, same_text_refl, Bool-cases, Option-cases, inl, inr, arith,
}
use bashpp.ProgramPool.{
  Document, Pool, or_empty, is_known, has_program, touch, re_parse_at, re_parse_each,
  re_parse_programs,
}
use bashpp.ProgramPool.Files.{set_unsaved_file_contents}
use bashpp.Debounce.{Debounce, did_change, finish_change, run_change}

abbrev is_missing : Option Document → Bool
is_missing none = true
is_missing (some d) = false

abbrev no_answers : {A : Type 0} → List A → Bool
no_answers [] = true
no_answers (x ∷ xs) = false

no_answers-map : (ds : List Document) → no_answers (map (λ d. some d) ds) ≡ no_answers ds
no_answers-map [] = refl
no_answers-map (d ∷ ds) = refl

-- The new contents as the parser sees them.
abbrev pub with_contents : Text → Text → Pool → Text → Option Text
with_contents uri content p = (set_unsaved_file_contents uri content p).unsaved_changes

module _ (parse : Text → (Text → Option Text) → Option Document) where
  abbrev fails : (Text → Option Text) → Option Document → Bool
  fails unsaved none = true
  fails unsaved (some d) = is_missing (parse d.main_source_file unsaved)

  -- None of the programs at some indices can be parsed.
  abbrev pub all_fail : (Text → Option Text) → List Document → List ℕ → Bool
  all_fail unsaved programs [] = true
  all_fail unsaved programs (i ∷ is) =
      fails unsaved (get_elem? programs i) && all_fail unsaved programs is

  re_parse_each-fails :
      (is : List ℕ) (p : Pool)
      → no_answers (re_parse_each parse is p).1 ≡ all_fail p.unsaved_changes p.programs is
  unfolding re_parse_each re_parse_at
  re_parse_each-fails [] p = refl
  re_parse_each-fails (i ∷ is) p = elim (Option-cases (get_elem? p.programs i)) [
    | inl e ↦ rw (re_parse_each, re_parse_at, e) (re_parse_each-fails is p)
    | inr (d, e) ↦ elim (Option-cases (parse d.main_source_file p.unsaved_changes)) [
      | inl f ↦ rw (re_parse_each, re_parse_at, e, f) (re_parse_each-fails is p)
      | inr (new, f) ↦ rw (re_parse_each, re_parse_at, e, f) refl
    ]
  ]

  touch-indices :
      (uri : Text) (p : Pool)
      → or_empty ((touch uri p).program_indices uri) ≡ or_empty (p.program_indices uri)
  unfolding touch
  touch-indices uri p = rw (same_text_refl uri) refl

  re_parse_programs-answers :
      (uri : Text) (p : Pool)
      → is_known (p.snapshot.program_indices uri) ≡ is_known (p.program_indices uri)
      → no_answers (re_parse_programs parse uri p).1 ≡ (
          is_known (p.program_indices uri)
          && all_fail p.unsaved_changes p.programs (or_empty (p.program_indices uri)))
  unfolding re_parse_programs has_program touch
  re_parse_programs-answers uri p same = elim (Bool-cases (is_known (p.program_indices uri))) [
    | inl t ↦
        let known : has_program uri p ≡ true = same ∙ t in
        let touched = touch uri p in
        let indices = or_empty (touched.program_indices uri) in
        rw (re_parse_programs, known, t)
          (no_answers-map (re_parse_each parse indices touched).1
            ∙ re_parse_each-fails indices touched
            ∙ ap (all_fail p.unsaved_changes p.programs) (touch-indices uri p))
    | inr t ↦
        let unknown : has_program uri p ≡ false = same ∙ t in
        rw (re_parse_programs, unknown, t) refl
  ]

  finish_change-flag :
      (programs : List (Option Document)) (duration : ℕ) (s : Debounce)
      → s.processing ≡ true
      → (finish_change programs duration s).processing ≡ no_answers programs
  unfolding finish_change
  finish_change-flag [] duration s h = h
  finish_change-flag (d ∷ ds) duration s h = refl

  -- The thread of the newest change leaves `processing_didChange` set exactly if the pool lists the file
  -- and no program at the file's indices can be parsed with the new contents. For a file that the pool does
  -- not list it clears the flag even if nothing could be parsed.
  pub run_change-processing :
      (s : Debounce) (p : Pool) (uri new_content : Text) (duration : ℕ)
      → (run_change parse
          (did_change s).1
          uri
          new_content
          duration
          ((did_change s).0, p)).0.processing
        ≡ (is_known (p.program_indices uri)
            && all_fail
                (with_contents uri new_content p)
                p.programs
                (or_empty (p.program_indices uri)))
  unfolding run_change did_change set_unsaved_file_contents
  run_change-processing s p uri new_content duration =
      let generation = (did_change s).1 in
      let newest : (generation == generation) ≡ true = ground arith in
      rw (run_change, newest)
        (finish_change-flag _ duration (did_change s).0 refl
          ∙ re_parse_programs-answers uri (set_unsaved_file_contents uri new_content p) refl)
