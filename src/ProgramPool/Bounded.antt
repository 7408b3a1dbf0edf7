-- ===== src/ProgramPool/Bounded.antt =====
-- How many programs the pool holds, whatever is asked of it: src/lsp/ProgramPool.cpp.
use bashpp.Prelude.{
  ℕ, zero, suc, ◌+◌, Bool, true, false, List, [], ◌∷◌, Option, ◌≡◌, ◌<◌, ◌≤◌, refl, ◌∙◌, arith,
  length, length-set, get_elem?, leb, Text, Bool-cases, Option-cases, inl, inr,
}
use bashpp.ProgramPool.{
  Document, Pool, or_empty, earlier, is_subsumed, subsume, make_room, create_program, get_program,
  push_program, remove_program, replace_program, touch, has_program, re_parse_at, re_parse_each,
  re_parse_programs, get_programs_for_file,
}
use bashpp.ProgramPool.Answers.{remove_program-length, get_program-length}
use bashpp.ProgramPool.Files.{
  set_unsaved_file_contents, remove_unsaved_file_contents, open_file, close_file, clean, any_open,
  close_each, sort_descending,
}

-- A call of the pool that may change it.
pub data Call : Type 0 where
  gets gets_all : Text → Bool → Call
  parses_again opens closes forgets : Text → Call
  changes : Text → Text → Call
  cleans : Call

-- The pool keeps its maximum `m` and to it.
abbrev pub IsBounded : ℕ → Pool → Type 0
IsBounded m p = (p.max_programs ≡ m) × (length p.programs ≤ m)

remove_program-max : (i : ℕ) (p : Pool) → (remove_program i p).max_programs ≡ p.max_programs
unfolding remove_program
remove_program-max i p = elim (Option-cases (get_elem? p.programs i)) [
  | inl e ↦ rw (remove_program, e) refl
  | inr (d, e) ↦ rw (remove_program, e) refl
]

remove_program-IsBounded : (m i : ℕ) (p : Pool) → IsBounded m p → IsBounded m (remove_program i p)
remove_program-IsBounded m i p (h, b) =
    (remove_program-max i p ∙ h, omega (arith, remove_program-length i p))

subsume-max :
    (fuel i : ℕ) (file_path : Text) (new : Document) (p : Pool)
    → (subsume fuel i file_path new p).max_programs ≡ p.max_programs
unfolding subsume
subsume-max zero i file_path new p = refl
subsume-max (suc fuel) i file_path new p = elim (Option-cases (earlier i p)) [
  | inl e ↦ rw (subsume, e) refl
  | inr (d, e) ↦
      rw (subsume, e)
        (elim (Bool-cases (is_subsumed file_path new d)) [
          | inl hit ↦
              rw hit
                (subsume-max fuel i file_path new (remove_program i p) ∙ remove_program-max i p)
          | inr miss ↦ rw miss (subsume-max fuel (i + 1) file_path new p)
        ])
]

make_room-max : (p : Pool) → (make_room p).max_programs ≡ p.max_programs
make_room-max p = elim (Bool-cases (leb p.max_programs (length p.programs))) [
  | inl full ↦ rw full (remove_program-max 0 p)
  | inr free ↦ rw free refl
]

push_program-max :
    (file_path : Text) (new : Document) (p : Pool)
    → (push_program file_path new p).max_programs ≡ p.max_programs
unfolding push_program
push_program-max file_path new p = refl

close_each-IsBounded :
    (m : ℕ) (is : List ℕ) (p : Pool) → IsBounded m p → IsBounded m (close_each is p)
unfolding close_each
close_each-IsBounded m [] p b = b
close_each-IsBounded m (i ∷ is) p b = elim (Option-cases (get_elem? p.programs i)) [
  | inl e ↦ rw (close_each, e) (close_each-IsBounded m is p b)
  | inr (d, e) ↦ elim (Bool-cases (any_open p.open_files d.source_files)) [
    | inl t ↦ rw (close_each, e, t) (close_each-IsBounded m is p b)
    | inr t ↦
        rw (close_each, e, t)
          (close_each-IsBounded m is (remove_program i p) (remove_program-IsBounded m i p b))
  ]
]

close_file-IsBounded :
    (m : ℕ) (file_path : Text) (p : Pool) → IsBounded m p → IsBounded m (close_file file_path p)
unfolding close_file
close_file-IsBounded m file_path p b = elim (Bool-cases (p.open_files file_path)) [
  | inl t ↦ elim (Option-cases (p.program_indices file_path)) [
    | inl e ↦ rw (close_file, t, e) b
    | inr (is, e) ↦ rw (close_file, t, e) (close_each-IsBounded m (sort_descending is) _ b)
  ]
  | inr t ↦ rw (close_file, t) b
]

open_file-IsBounded :
    (m : ℕ) (file_path : Text) (p : Pool) → IsBounded m p → IsBounded m (open_file file_path p)
unfolding open_file
open_file-IsBounded m file_path p b = elim (Option-cases (p.program_indices file_path)) [
  | inl e ↦ rw (open_file, e) b
  | inr (is, e) ↦ rw (open_file, e) b
]

module _ (parse : Text → (Text → Option Text) → Option Document) where
  create_program-max :
      (file_path : Text) (p : Pool)
      → (create_program parse file_path p).0.max_programs ≡ p.max_programs
  unfolding create_program
  create_program-max file_path p =
      let room = make_room p in
      elim (Option-cases (parse file_path room.unsaved_changes)) [
        | inl e ↦ rw (create_program, e) (make_room-max p)
        | inr (new, e) ↦
            let pushed = push_program file_path new room in
            rw (create_program, e)
              (subsume-max (length pushed.programs) 0 file_path new pushed
                ∙ push_program-max file_path new room
                ∙ make_room-max p)
      ]

  get_program-max :
      (file_path : Text) (jump_queue : Bool) (p : Pool)
      → (get_program parse file_path jump_queue p).0.max_programs ≡ p.max_programs
  unfolding get_program
  get_program-max file_path true p = refl
  get_program-max file_path false p = split (or_empty (p.program_indices file_path)) refl
    where
      split :
          (is : List ℕ)
          → or_empty (p.program_indices file_path) ≡ is
          → (get_program parse file_path false p).0.max_programs ≡ p.max_programs
      split [] e = rw (get_program, e) (create_program-max file_path p)
      split (i ∷ is) e = rw (get_program, e) refl

  get_program-IsBounded :
      (m : ℕ) (file_path : Text) (jump_queue : Bool) (p : Pool)
      → 0 < m
      → IsBounded m p
      → IsBounded m (get_program parse file_path jump_queue p).0
  get_program-IsBounded m file_path jump_queue p h (e, b) = (
    get_program-max file_path jump_queue p ∙ e,
    omega (
      arith,
      e,
      get_program-length parse file_path jump_queue p (omega (arith, e)) (omega (arith, e)),
    ),
  )

  get_programs_for_file-IsBounded :
      (m : ℕ) (file_path : Text) (jump_queue : Bool) (p : Pool)
      → 0 < m
      → IsBounded m p
      → IsBounded m (get_programs_for_file parse file_path jump_queue p).0
  unfolding get_programs_for_file
  get_programs_for_file-IsBounded m file_path true p h b = b
  get_programs_for_file-IsBounded m file_path false p h b =
      elim (Option-cases (p.program_indices file_path)) [
        | inl e ↦ rw (get_programs_for_file, e) (get_program-IsBounded m file_path false p h b)
        | inr (is, e) ↦ rw (get_programs_for_file, e) b
      ]

  re_parse_at-IsBounded :
      (m i : ℕ) (p : Pool) → IsBounded m p → IsBounded m (re_parse_at parse i p).0
  unfolding re_parse_at replace_program
  re_parse_at-IsBounded m i p b = elim (Option-cases (get_elem? p.programs i)) [
    | inl e ↦ rw (re_parse_at, e) b
    | inr (d, e) ↦ elim (Option-cases (parse d.main_source_file p.unsaved_changes)) [
      | inl f ↦ rw (re_parse_at, e, f) b
      | inr (new, f) ↦ rw (re_parse_at, e, f) (b.0, omega (arith, b.1, length-set p.programs i new))
    ]
  ]

  re_parse_each-IsBounded :
      (m : ℕ) (is : List ℕ) (p : Pool) → IsBounded m p → IsBounded m (re_parse_each parse is p).0
  unfolding re_parse_each
  re_parse_each-IsBounded m [] p b = b
  re_parse_each-IsBounded m (i ∷ is) p b =
      re_parse_each-IsBounded m is (re_parse_at parse i p).0 (re_parse_at-IsBounded m i p b)

  re_parse_programs-IsBounded :
      (m : ℕ) (file_path : Text) (p : Pool)
      → 0 < m
      → IsBounded m p
      → IsBounded m (re_parse_programs parse file_path p).0
  unfolding re_parse_programs touch
  re_parse_programs-IsBounded m file_path p h b = elim (Bool-cases (has_program file_path p)) [
    | inl t ↦
        rw (re_parse_programs, t)
          (re_parse_each-IsBounded m (or_empty ((touch file_path p).program_indices file_path))
            (touch file_path p) b)
    | inr t ↦ rw (re_parse_programs, t) (get_program-IsBounded m file_path false p h b)
  ]

  unfoldable pub answer : Call → Pool → Pool
  answer (gets file_path jump_queue) p = (get_program parse file_path jump_queue p).0
  answer (gets_all file_path jump_queue) p = (get_programs_for_file parse file_path jump_queue p).0
  answer (parses_again file_path) p = (re_parse_programs parse file_path p).0
  answer (opens file_path) p = open_file file_path p
  answer (closes file_path) p = close_file file_path p
  answer (forgets file_path) p = remove_unsaved_file_contents file_path p
  answer (changes file_path contents) p = set_unsaved_file_contents file_path contents p
  answer cleans p = clean p

  unfoldable pub answer_all : List Call → Pool → Pool
  unfolding answer
  answer_all [] p = p
  answer_all (c ∷ cs) p = answer_all cs (answer c p)

  answer-IsBounded :
      (m : ℕ) (c : Call) (p : Pool) → 0 < m → IsBounded m p → IsBounded m (answer c p)
  unfolding answer remove_unsaved_file_contents set_unsaved_file_contents clean
  answer-IsBounded m (gets file_path jump) p h b = get_program-IsBounded m file_path jump p h b
  answer-IsBounded m (gets_all file_path jump) p h b =
      get_programs_for_file-IsBounded m file_path jump p h b
  answer-IsBounded m (parses_again file_path) p h b = re_parse_programs-IsBounded m file_path p h b
  answer-IsBounded m (opens file_path) p h b = open_file-IsBounded m file_path p b
  answer-IsBounded m (closes file_path) p h b = close_file-IsBounded m file_path p b
  answer-IsBounded m (forgets file_path) p h b = b
  answer-IsBounded m (changes file_path contents) p h b = b
  answer-IsBounded m cleans p h b = (b.0, omega arith)

  -- A pool whose maximum is at least one program and that keeps to it has, after any sequence of calls,
  -- the same maximum, and does not hold more programs.
  pub answer_all-IsBounded :
      (m : ℕ) (cs : List Call) (p : Pool) → 0 < m → IsBounded m p → IsBounded m (answer_all cs p)
  unfolding answer_all
  answer_all-IsBounded m [] p h b = b
  answer_all-IsBounded m (c ∷ cs) p h b =
      answer_all-IsBounded m cs (answer c p) h (answer-IsBounded m c p h b)
