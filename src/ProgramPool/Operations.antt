-- ===== src/ProgramPool/Operations.antt =====
-- Every operation of the pool keeps the map of indices in agreement with the programs.
use bashpp.Prelude.{
  ℕ, zero, suc, ◌+◌, Bool, true, false, not, ◌&&◌, List, [], ◌∷◌, Option, some, ◌≡◌, ◌<◌, refl,
  arith, length, get_elem?, Text, same_text, Bool-cases, Option-cases, inl, inr, leb,
}
use bashpp.ProgramPool.{
  Document, Pool, or_empty, is_subsumed, earlier, subsume, make_room, create_program,
  update_snapshot, get_program, re_parse_at, re_parse_each, re_parse_programs, has_program, touch,
  push_program, remove_program,
}
use bashpp.ProgramPool.Files.{close_each, close_file, any_open, sort_descending}
use bashpp.ProgramPool.Indices.{
  IsIndexed, remove_program-IsIndexed, push_program-IsIndexed, replace_program-IsIndexed,
}

subsume-IsIndexed :
    (fuel i : ℕ) (file_path : Text) (new : Document) (p : Pool)
    → IsIndexed p
    → IsIndexed (subsume fuel i file_path new p)
unfolding subsume
subsume-IsIndexed zero i file_path new p v = v
subsume-IsIndexed (suc fuel) i file_path new p v = elim (Option-cases (earlier i p)) [
  | inl e ↦ rw (subsume, e) v
  | inr (d, e) ↦
      rw (subsume, e)
        (elim (Bool-cases (is_subsumed file_path new d)) [
          | inl hit ↦ rw hit (
              subsume-IsIndexed fuel i file_path new (remove_program i p)
                (remove_program-IsIndexed i p v))
          | inr miss ↦ rw miss (subsume-IsIndexed fuel (i + 1) file_path new p v)
        ])
]

make_room-IsIndexed : (p : Pool) → IsIndexed p → IsIndexed (make_room p)
make_room-IsIndexed p v = elim (Bool-cases (leb p.max_programs (length p.programs))) [
  | inl full ↦ rw full (remove_program-IsIndexed 0 p v)
  | inr free ↦ rw free v
]

update_snapshot-IsIndexed : (p : Pool) → IsIndexed p → IsIndexed (update_snapshot p)
update_snapshot-IsIndexed p v = record { agrees = v.agrees }

pub get_elem?-some :
    {A : Type 0} (xs : List A) (i : ℕ) (x : A) → get_elem? xs i ≡ some x → i < length xs
get_elem?-some [] i x e = cc
get_elem?-some (y ∷ xs) zero x e = omega arith
get_elem?-some (y ∷ xs) (suc i) x e = omega (arith, get_elem?-some xs i x e)

touch-IsIndexed : (file_path : Text) (p : Pool) → IsIndexed p → IsIndexed (touch file_path p)
unfolding touch
touch-IsIndexed file_path p v = record { agrees = λ path i. ground (arith, v.agrees path i) }

module _ (parse : Text → (Text → Option Text) → Option Document) where
  create_program-IsIndexed :
      (file_path : Text) (p : Pool) → IsIndexed p → IsIndexed (create_program parse file_path p).0
  unfolding create_program
  create_program-IsIndexed file_path p v =
      let room = make_room p in
      elim (Option-cases (parse file_path room.unsaved_changes)) [
        | inl e ↦ rw (create_program, e) (make_room-IsIndexed p v)
        | inr (new, e) ↦
            let pushed = push_program file_path new room in
            rw (create_program, e)
              (update_snapshot-IsIndexed (subsume (length pushed.programs) 0 file_path new pushed) (
                subsume-IsIndexed (length pushed.programs) 0 file_path new pushed
                  (push_program-IsIndexed file_path new room (make_room-IsIndexed p v))))
      ]

  -- Whether it finds the program, makes one, makes room for it or fails to parse, `get_program` keeps
  -- the map of indices in agreement with the programs.
  pub get_program-IsIndexed :
      (file_path : Text) (jump_queue : Bool) (p : Pool)
      → IsIndexed p
      → IsIndexed (get_program parse file_path jump_queue p).0
  unfolding get_program
  get_program-IsIndexed file_path true p v = v
  get_program-IsIndexed file_path false p v = split (or_empty (p.program_indices file_path)) refl
    where
      split :
          (is : List ℕ)
          → or_empty (p.program_indices file_path) ≡ is
          → IsIndexed (get_program parse file_path false p).0
      split [] e = rw (get_program, e) (create_program-IsIndexed file_path p v)
      split (i ∷ is) e = rw (get_program, e) v

  re_parse_at-IsIndexed : (i : ℕ) (p : Pool) → IsIndexed p → IsIndexed (re_parse_at parse i p).0
  unfolding re_parse_at
  re_parse_at-IsIndexed i p v = elim (Option-cases (get_elem? p.programs i)) [
    | inl e ↦ rw (re_parse_at, e) v
    | inr (d, e) ↦
        rw (re_parse_at, e)
          (elim (Option-cases (parse d.main_source_file p.unsaved_changes)) [
            | inl failed ↦ rw failed v
            | inr (new, parsed) ↦
                rw parsed (replace_program-IsIndexed i new p (get_elem?-some p.programs i d e) v)
          ])
  ]

  re_parse_each-IsIndexed :
      (is : List ℕ) (p : Pool) → IsIndexed p → IsIndexed (re_parse_each parse is p).0
  unfolding re_parse_each
  re_parse_each-IsIndexed [] p v = v
  re_parse_each-IsIndexed (i ∷ is) p v =
      re_parse_each-IsIndexed is (re_parse_at parse i p).0 (re_parse_at-IsIndexed i p v)

  -- Re-parsing the programs of a file keeps the map of indices in agreement with the programs, also
  -- where some of them fail to parse.
  pub re_parse_programs-IsIndexed :
      (file_path : Text) (p : Pool)
      → IsIndexed p
      → IsIndexed (re_parse_programs parse file_path p).0
  unfolding re_parse_programs
  re_parse_programs-IsIndexed file_path p v = elim (Bool-cases (has_program file_path p)) [
    | inl known ↦
        let touched = touch file_path p in
        let is = or_empty (touched.program_indices file_path) in
        rw known (
          update_snapshot-IsIndexed (re_parse_each parse is touched).0
            (re_parse_each-IsIndexed is touched (touch-IsIndexed file_path p v)))
    | inr new ↦ rw new (get_program-IsIndexed file_path false p v)
  ]

close_each-IsIndexed : (is : List ℕ) (p : Pool) → IsIndexed p → IsIndexed (close_each is p)
unfolding close_each
close_each-IsIndexed [] p v = v
close_each-IsIndexed (i ∷ is) p v =
    close_each-IsIndexed is _ (elim (Option-cases (get_elem? p.programs i)) [
      | inl e ↦ rw e v
      | inr (d, e) ↦ rw e (elim (Bool-cases (any_open p.open_files d.source_files)) [
        | inl opened ↦ rw opened v
        | inr closed ↦ rw closed (remove_program-IsIndexed i p v)
      ])
    ])

-- Closing a file, which removes the programs that have no file open any more, keeps the map of indices
-- in agreement with the programs.
pub close_file-IsIndexed :
    (file_path : Text) (p : Pool) → IsIndexed p → IsIndexed (close_file file_path p)
unfolding close_file
close_file-IsIndexed file_path p v = elim (Bool-cases (p.open_files file_path)) [
  | inr shut ↦ rw shut v
  | inl opened ↦ rw opened (elim (Option-cases (p.program_indices file_path)) [
    | inl e ↦ rw e (record { agrees = v.agrees })
    | inr (is, e) ↦
        let rest = record p {
          open_files = λ path. p.open_files path && not (same_text path file_path);
        } in
        rw e (
          update_snapshot-IsIndexed (close_each (sort_descending is) rest)
            (close_each-IsIndexed (sort_descending is) rest (record { agrees = v.agrees })))
  ])
]
