-- ===== src/ProgramPool/Answers.antt =====
-- What `get_program` answers, and how many programs it keeps.
use bashpp.Prelude.{
  ℕ, zero, suc, ◌+◌, ◌-◌, Bool, true, false, List, [], ◌∷◌, Option, none, some, ◌≡◌, ◌<◌, ◌≤◌, refl,
  sym, ◌∙◌, ap, arith, length, length-append, get_elem?, leb, Text, mem_text, Bool-cases,
  Option-cases, inl, inr,
}
use bashpp.ProgramPool.{
  Document, Pool, or_empty, mem_index, erase_at, is_subsumed, earlier, subsume, make_room,
  create_program, get_program, push_program, remove_program,
}
use bashpp.ProgramPool.Indices.{IsIndexed, has_file}

has_file-some :
    (path : Text) (i : ℕ) (ds : List Document)
    → has_file path i ds ≡ true
    → (d : Document) × (get_elem? ds i ≡ some d) × (mem_text path d.source_files ≡ true)
unfolding has_file
has_file-some path i ds h = elim (Option-cases (get_elem? ds i)) [
  | inl e ↦ absurd (cc)
  | inr (d, e) ↦ (d, e, cc)
]

length-erase_at : (i : ℕ) (ds : List Document) → length (erase_at i ds) ≤ length ds
unfolding erase_at
length-erase_at i [] = omega arith
length-erase_at zero (d ∷ ds) = omega arith
length-erase_at (suc i) (d ∷ ds) = omega (arith, length-erase_at i ds)

pub remove_program-length :
    (i : ℕ) (p : Pool) → length (remove_program i p).programs ≤ length p.programs
unfolding remove_program
remove_program-length i p = elim (Option-cases (get_elem? p.programs i)) [
  | inl e ↦ rw (remove_program, e) (omega arith)
  | inr (d, e) ↦ rw (remove_program, e) (length-erase_at i p.programs)
]

length-erase_first : (ds : List Document) → length (erase_at 0 ds) ≡ length ds - 1
unfolding erase_at
length-erase_first [] = refl
length-erase_first (d ∷ ds) = omega arith

remove_first-length : (p : Pool) → length (remove_program 0 p).programs ≡ length p.programs - 1
unfolding remove_program
remove_first-length p = elim (Option-cases (get_elem? p.programs 0)) [
  | inl e ↦ rw (remove_program, e) (empty p.programs e)
  | inr (d, e) ↦ rw (remove_program, e) (length-erase_first p.programs)
]
  where
    empty : (ds : List Document) → get_elem? ds 0 ≡ none → length ds ≡ length ds - 1
    empty [] e = refl
    empty (d ∷ ds) e = cc

subsume-length :
    (fuel i : ℕ) (file_path : Text) (new : Document) (p : Pool)
    → length (subsume fuel i file_path new p).programs ≤ length p.programs
unfolding subsume
subsume-length zero i file_path new p = omega arith
subsume-length (suc fuel) i file_path new p = elim (Option-cases (earlier i p)) [
  | inl e ↦ rw (subsume, e) (omega arith)
  | inr (d, e) ↦
      rw (subsume, e)
        (elim (Bool-cases (is_subsumed file_path new d)) [
          | inl hit ↦ rw hit (
              omega (
                arith,
                subsume-length fuel i file_path new (remove_program i p),
                remove_program-length i p,
              ))
          | inr miss ↦ rw miss (subsume-length fuel (i + 1) file_path new p)
        ])
]

push_program-length :
    (file_path : Text) (new : Document) (p : Pool)
    → length (push_program file_path new p).programs ≡ length p.programs + 1
unfolding push_program
push_program-length file_path new p = length-append p.programs (new ∷ [])

make_room-length : (p : Pool) → length (make_room p).programs ≤ length p.programs
make_room-length p = elim (Bool-cases (leb p.max_programs (length p.programs))) [
  | inl full ↦ rw full (remove_program-length 0 p)
  | inr free ↦ rw free (omega arith)
]

make_room-below :
    (p : Pool)
    → 0 < p.max_programs
    → length p.programs ≤ p.max_programs
    → length (make_room p).programs + 1 ≤ p.max_programs
make_room-below p h bound = elim (Bool-cases (leb p.max_programs (length p.programs))) [
  | inl full ↦ rw full (omega (arith, remove_first-length p))
  | inr free ↦ rw free (ground arith)
]

module _ (parse : Text → (Text → Option Text) → Option Document) where
  -- For a path that the pool lists, `get_program` changes nothing and answers a program of the pool
  -- that has the path among its source files: no index is out of range.
  pub get_program-known :
      (file_path : Text) (i : ℕ) (is : List ℕ) (p : Pool)
      → IsIndexed p
      → or_empty (p.program_indices file_path) ≡ i ∷ is
      → (d : Document) × (get_program parse file_path false p ≡ (p, some d))
        × (get_elem? p.programs i ≡ some d)
        × (mem_text file_path d.source_files ≡ true)
  unfolding get_program mem_index
  get_program-known file_path i is p v e =
      let listed : mem_index i (or_empty (p.program_indices file_path)) ≡ true =
        rw e (ground arith) in
      let (d, found, named) =
        has_file-some file_path i p.programs (sym (v.agrees file_path i) ∙ listed) in
      (d, rw (get_program, e) (ap (λ o. (p, o)) found), found, named)

  create_program-length :
      (file_path : Text) (p : Pool)
      → 0 < p.max_programs
      → length p.programs ≤ p.max_programs
      → length (create_program parse file_path p).0.programs ≤ p.max_programs
  unfolding create_program
  create_program-length file_path p h bound =
      let room = make_room p in
      elim (Option-cases (parse file_path room.unsaved_changes)) [
        | inl e ↦ rw (create_program, e) (omega (arith, make_room-length p))
        | inr (new, e) ↦
            let pushed = push_program file_path new room in
            rw (create_program, e)
              (omega (
                arith,
                subsume-length (length pushed.programs) 0 file_path new pushed,
                push_program-length file_path new room,
                make_room-below p h bound,
              ))
      ]

  -- A pool with room for at least one program never holds more than its maximum, whatever is asked
  -- of it.
  pub get_program-length :
      (file_path : Text) (jump_queue : Bool) (p : Pool)
      → 0 < p.max_programs
      → length p.programs ≤ p.max_programs
      → length (get_program parse file_path jump_queue p).0.programs ≤ p.max_programs
  unfolding get_program
  get_program-length file_path true p h bound = bound
  get_program-length file_path false p h bound = split (or_empty (p.program_indices file_path)) refl
    where
      split :
          (is : List ℕ)
          → or_empty (p.program_indices file_path) ≡ is
          → length (get_program parse file_path false p).0.programs ≤ p.max_programs
      split [] e = rw (get_program, e) (create_program-length file_path p h bound)
      split (i ∷ is) e = rw (get_program, e) bound
