-- ===== src/ProgramPool.antt =====
-- src/lsp/ProgramPool.cpp: the programs that the language server keeps, and which of them each source
-- file belongs to. A map is the function of its lookup; the files of a program are the names that
-- `get_source_files` lists. `_parse_program` runs the parser and the listener on a file and on the
-- unsaved contents; here it is the parameter `parse`, and null is `none`. The mutexes make each
-- operation one step.
pub mod Indices
pub mod Subsume
pub mod Answers
pub mod Bounded
pub mod Files
pub mod Operations
use bashpp.Prelude.{
  ℕ, zero, suc, ◌+◌, ◌-◌, Bool, true, false, not, ◌&&◌, ◌||◌, List, [], ◌∷◌, ◌++◌, map, Option,
  none, some, length, get_elem?, set, ltb, leb, ◌==◌, if◌then◌else◌, Text, same_text, mem_text,
}

-- A `bpp_program` as the pool sees it.
pub record Document : Type 0 where
  pub main_source_file : Text
  pub source_files : List Text

pub record Snapshot : Type 0 where
  pub programs : List Document
  pub program_indices : Text → Option (List ℕ)
  pub open_files : Text → Bool
  pub unsaved_changes : Text → Option Text

pub record Pool : Type 0 where
  pub max_programs : ℕ
  pub programs : List Document
  pub program_indices : Text → Option (List ℕ)
  pub open_files : Text → Bool
  pub unsaved_changes : Text → Option Text
  pub snapshot : Snapshot

abbrev pub update_snapshot : Pool → Pool
update_snapshot p = record p {
  snapshot = record {
    programs = p.programs;
    program_indices = p.program_indices;
    open_files = p.open_files;
    unsaved_changes = p.unsaved_changes;
  };
}

-- `ranges::contains` on a vector of indices
unfoldable pub mem_index : ℕ → List ℕ → Bool
mem_index i [] = false
mem_index i (j ∷ js) = (j == i) || mem_index i js

-- `std::erase`
unfoldable pub erase_index : ℕ → List ℕ → List ℕ
erase_index i [] = []
erase_index i (j ∷ js) = let rest = erase_index i js in if j == i then rest else j ∷ rest

-- The index of a program once the one at `index` is gone.
abbrev pub shift_down : ℕ → ℕ → ℕ
shift_down index i = if ltb index i then i - 1 else i

-- `programs.erase(programs.begin() + index)`
unfoldable pub erase_at : ℕ → List Document → List Document
erase_at index [] = []
erase_at zero (d ∷ ds) = ds
erase_at (suc index) (d ∷ ds) = d ∷ erase_at index ds

-- `operator[]` of the map of indices, for reading
abbrev pub or_empty : Option (List ℕ) → List ℕ
or_empty none = []
or_empty (some is) = is

-- A file path with no associated programs leaves the map.
abbrev pub nonempty : Option (List ℕ) → Option (List ℕ)
nonempty none = none
nonempty (some []) = none
nonempty (some (i ∷ is)) = some (i ∷ is)

abbrev pub on_indices : (List ℕ → List ℕ) → Option (List ℕ) → Option (List ℕ)
on_indices f none = none
on_indices f (some is) = some (f is)

unfoldable pub remove_program : ℕ → Pool → Pool
unfolding erase_at erase_index mem_text
remove_program index p = elim (get_elem? p.programs index) [
  | none ↦ p
  | some d ↦ record p {
    programs = erase_at index p.programs;
    program_indices = λ path.
        nonempty (
          on_indices (λ is. map (shift_down index) (erase_index index is))
            (p.program_indices path));
    open_files = λ path. p.open_files path && not (mem_text path d.source_files);
  }
]

-- The loop that maps the files of a program to its index.
unfoldable pub add_indices : ℕ → List Text → (Text → Option (List ℕ)) → Text → Option (List ℕ)
unfolding mem_index same_text mem_text
add_indices index files indices path =
    let is = or_empty (indices path) in
    if mem_text path files
    then some (if mem_index index is then is else is ++ index ∷ [])
    else indices path

-- The program `d` is included in the new one, which is to take its place.
unfoldable pub is_subsumed : Text → Document → Document → Bool
unfolding mem_text same_text
is_subsumed file_path new d =
    mem_text d.main_source_file new.source_files && not (same_text d.main_source_file file_path)

-- The program that the loop over the earlier programs looks at in round `i`, unless it is over.
abbrev pub earlier : ℕ → Pool → Option Document
earlier i p = if ltb (i + 1) (length p.programs) then get_elem? p.programs i else none

-- That loop. The number of programs is enough fuel: each round passes or removes one.
unfoldable pub subsume : ℕ → ℕ → Text → Document → Pool → Pool
unfolding is_subsumed remove_program
subsume zero i file_path new p = p
subsume (suc fuel) i file_path new p = elim (earlier i p) [
  | none ↦ p
  | some d ↦
      let hit = is_subsumed file_path new d in
      subsume fuel (if hit then i else i + 1) file_path new (if hit then remove_program i p else p)
]

-- The push of a new program, before the loop.
unfoldable pub push_program : Text → Document → Pool → Pool
unfolding add_indices same_text
push_program file_path new p = record p {
  programs = p.programs ++ new ∷ [];
  program_indices = add_indices (length p.programs) new.source_files p.program_indices;
  open_files = λ path. same_text path file_path || p.open_files path;
}

abbrev pub make_room : Pool → Pool
make_room p = if leb p.max_programs (length p.programs) then remove_program 0 p else p

abbrev pub first_program : List Document → List ℕ → Option Document
first_program ds [] = none
first_program ds (i ∷ is) = get_elem? ds i

-- The body of the loop of `re_parse_programs`, for a successful parse.
unfoldable pub replace_program : ℕ → Document → Pool → Pool
unfolding add_indices erase_index
replace_program index new p = record p {
  programs = set p.programs index new;
  program_indices = λ path. nonempty (
      add_indices index new.source_files (λ q. on_indices (erase_index index) (p.program_indices q))
        path);
}

-- `program_indices[file_path]`, which makes an empty entry where there is none
unfoldable pub touch : Text → Pool → Pool
unfolding same_text
touch file_path p = record p {
  program_indices = λ path.
      if same_text path file_path
      then some (or_empty (p.program_indices path))
      else p.program_indices path;
}

abbrev pub is_known : Option (List ℕ) → Bool
is_known none = false
is_known (some is) = true

-- `has_program` reads the snapshot.
unfoldable pub has_program : Text → Pool → Bool
has_program file_path p = is_known (p.snapshot.program_indices file_path)

abbrev pub answer_list : Pool × Option Document → Pool × List (Option Document)
answer_list (p, d) = (p, d ∷ [])

abbrev present : Option Document → List Document
present none = []
present (some d) = d ∷ []

unfoldable pub programs_at : List Document → List ℕ → List Document
programs_at ds [] = []
programs_at ds (i ∷ is) = present (get_elem? ds i) ++ programs_at ds is

module _ (parse : Text → (Text → Option Text) → Option Document) where
  -- `get_program` when the file is not known: the pool afterwards, and the program.
  unfoldable pub create_program : Text → Pool → Pool × Option Document
  unfolding push_program subsume remove_program
  create_program file_path p =
      let room = make_room p in
      elim (parse file_path room.unsaved_changes) [
        | none ↦ (room, none)
        | some new ↦
            let pushed = push_program file_path new room in
            (update_snapshot (subsume (length pushed.programs) 0 file_path new pushed), some new)
      ]

  unfoldable pub get_program : Text → Bool → Pool → Pool × Option Document
  unfolding create_program
  get_program file_path true p =
      (p, first_program p.snapshot.programs (or_empty (p.snapshot.program_indices file_path)))
  get_program file_path false p = elim (or_empty (p.program_indices file_path)) [
    | [] ↦ create_program file_path p
    | i ∷ is ↦ (p, get_elem? p.programs i)
  ]

  -- One round of that loop.
  unfoldable pub re_parse_at : ℕ → Pool → Pool × List Document
  unfolding replace_program
  re_parse_at index p = elim (get_elem? p.programs index) [
    | none ↦ (p, [])
    | some d ↦ elim (parse d.main_source_file p.unsaved_changes) [
      | none ↦ (p, [])
      | some new ↦ (replace_program index new p, new ∷ [])
    ]
  ]

  unfoldable pub re_parse_each : List ℕ → Pool → Pool × List Document
  unfolding re_parse_at
  re_parse_each [] p = (p, [])
  re_parse_each (i ∷ is) p =
      let (p', done) = re_parse_at i p in
      let (p'', rest) = re_parse_each is p' in (p'', done ++ rest)

  unfoldable pub re_parse_programs : Text → Pool → Pool × List (Option Document)
  unfolding has_program get_program touch re_parse_each
  re_parse_programs file_path p =
      let touched = touch file_path p in
      let (p', done) = re_parse_each (or_empty (touched.program_indices file_path)) touched in
      if has_program file_path p
      then (update_snapshot p', map some done)
      else answer_list (get_program file_path false p)

  unfoldable pub get_programs_for_file : Text → Bool → Pool → Pool × List Document
  unfolding programs_at get_program
  get_programs_for_file file_path true p =
      (p, programs_at p.snapshot.programs (or_empty (p.snapshot.program_indices file_path)))
  get_programs_for_file file_path false p = elim (p.program_indices file_path) [
    | some is ↦ (p, programs_at p.programs is)
    | none ↦ let (p', d) = get_program file_path false p in (p', present d)
  ]
