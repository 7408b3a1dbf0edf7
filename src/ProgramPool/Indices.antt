-- ===== src/ProgramPool/Indices.antt =====
-- The map of indices agrees with the programs: an index is listed for a path exactly if the program
-- at that index has the path among its source files.
use bashpp.Prelude.{
  ℕ, zero, suc, ◌+◌, Bool, false, not, ◌&&◌, ◌||◌, List, [], ◌∷◌, ◌++◌, map, Option, none, some,
  ◌≡◌, ◌<◌, refl, sym, ◌∙◌, ap, arith, length, get_elem?, set, ltb, ◌==◌, if◌then◌else◌, Text,
  mem_text, Option-cases, inl, inr,
}
use bashpp.ProgramPool.{
  Document, Pool, mem_index, erase_index, shift_down, erase_at, or_empty, nonempty, on_indices,
  remove_program, add_indices, push_program, replace_program,
}

abbrev lists_file : Text → Option Document → Bool
lists_file path none = false
lists_file path (some d) = mem_text path d.source_files

unfoldable pub has_file : Text → ℕ → List Document → Bool
has_file path i ds = lists_file path (get_elem? ds i)

pub record IsIndexed (p : Pool) : Type 0 where
  pub agrees :
      (path : Text) (i : ℕ)
      → mem_index i (or_empty (p.program_indices path)) ≡ has_file path i p.programs

-- The old index of the program that stands at `i` after a removal.
abbrev pub shift_up : ℕ → ℕ → ℕ
shift_up index i = if ltb i index then i else i + 1

mem_index-shift :
    (index i : ℕ) (is : List ℕ)
    → mem_index i (map (shift_down index) (erase_index index is)) ≡ mem_index (shift_up index i) is
unfolding mem_index erase_index
mem_index-shift index i [] = refl
mem_index-shift index i (j ∷ js) = ground (arith, mem_index-shift index i js)

pub get_elem?-erase_at :
    (index i : ℕ) (ds : List Document)
    → get_elem? (erase_at index ds) i ≡ get_elem? ds (shift_up index i)
unfolding erase_at
get_elem?-erase_at index i [] = refl
get_elem?-erase_at zero i (d ∷ ds) = ground arith
get_elem?-erase_at (suc index) zero (d ∷ ds) = ground arith
get_elem?-erase_at (suc index) (suc i) (d ∷ ds) = ground (arith, get_elem?-erase_at index i ds)

or_empty-nonempty : (o : Option (List ℕ)) → or_empty (nonempty o) ≡ or_empty o
or_empty-nonempty none = refl
or_empty-nonempty (some []) = refl
or_empty-nonempty (some (i ∷ is)) = refl

or_empty-on_indices :
    (f : List ℕ → List ℕ) (o : Option (List ℕ))
    → f [] ≡ []
    → or_empty (on_indices f o) ≡ f (or_empty o)
or_empty-on_indices f none e = sym e
or_empty-on_indices f (some is) e = refl

mem_index-erase_index :
    (index i : ℕ) (is : List ℕ)
    → mem_index i (erase_index index is) ≡ (not (index == i) && mem_index i is)
unfolding mem_index erase_index
mem_index-erase_index index i [] = ground arith
mem_index-erase_index index i (j ∷ js) = ground (arith, mem_index-erase_index index i js)

mem_index-push :
    (index i : ℕ) (is : List ℕ) → mem_index i (is ++ index ∷ []) ≡ (mem_index i is || (index == i))
unfolding mem_index
mem_index-push index i [] = ground arith
mem_index-push index i (j ∷ js) = ground (arith, mem_index-push index i js)

mem_index-add_indices :
    (index i : ℕ) (files : List Text) (m : Text → Option (List ℕ)) (path : Text)
    → mem_index i (or_empty (add_indices index files m path))
      ≡ (mem_index i (or_empty (m path)) || (mem_text path files && (index == i)))
unfolding add_indices
mem_index-add_indices index i files m path =
    ground (arith, mem_index-push index i (or_empty (m path)))

has_file-push :
    (path : Text) (i : ℕ) (ds : List Document) (new : Document)
    → has_file path i (ds ++ new ∷ [])
      ≡ (has_file path i ds || (mem_text path new.source_files && (length ds == i)))
unfolding has_file
has_file-push path zero [] new = ground arith
has_file-push path (suc i) [] new = ground arith
has_file-push path zero (d ∷ ds) new = ground arith
has_file-push path (suc i) (d ∷ ds) new = ground (arith, has_file-push path i ds new)

has_file-set :
    (path : Text) (i index : ℕ) (ds : List Document) (new : Document)
    → index < length ds
    → has_file path i (set ds index new) ≡ (
        (not (index == i) && has_file path i ds)
        || (mem_text path new.source_files && (index == i)))
unfolding has_file
has_file-set path i index [] new h = absurd (omega arith)
has_file-set path zero zero (d ∷ ds) new h = ground arith
has_file-set path (suc i) zero (d ∷ ds) new h = ground arith
has_file-set path zero (suc index) (d ∷ ds) new h = ground arith
has_file-set path (suc i) (suc index) (d ∷ ds) new h =
    ground (arith, has_file-set path i index ds new (omega arith))

has_file-erase_at :
    (path : Text) (index i : ℕ) (ds : List Document)
    → has_file path i (erase_at index ds) ≡ has_file path (shift_up index i) ds
unfolding has_file
has_file-erase_at path index i ds = ap (lists_file path) (get_elem?-erase_at index i ds)

pub remove_program-IsIndexed :
    (index : ℕ) (p : Pool) → IsIndexed p → IsIndexed (remove_program index p)
unfolding remove_program erase_index
remove_program-IsIndexed index p v = elim (Option-cases (get_elem? p.programs index)) [
  | inl e ↦ rw (remove_program, e) v
  | inr (d, e) ↦
      rw (remove_program, e)
        (record {
          agrees = λ path i.
              ap (mem_index i) (
                or_empty-nonempty (on_indices remove (p.program_indices path))
                ∙ or_empty-on_indices remove (p.program_indices path) nothing)
              ∙ mem_index-shift index i (or_empty (p.program_indices path))
              ∙ v.agrees path (shift_up index i)
              ∙ sym (has_file-erase_at path index i p.programs);
        })
]
  where
    remove : List ℕ → List ℕ
    remove is = map (shift_down index) (erase_index index is)

    nothing : remove [] ≡ []
    nothing = refl

pub push_program-IsIndexed :
    (file_path : Text) (new : Document) (p : Pool)
    → IsIndexed p
    → IsIndexed (push_program file_path new p)
unfolding push_program
push_program-IsIndexed file_path new p v = record {
  agrees = λ path i.
      mem_index-add_indices (length p.programs) i new.source_files p.program_indices path
      ∙ ap (λ b. b || (mem_text path new.source_files && (length p.programs == i)))
          (v.agrees path i)
      ∙ sym (has_file-push path i p.programs new);
}

pub replace_program-IsIndexed :
    (index : ℕ) (new : Document) (p : Pool)
    → index < length p.programs
    → IsIndexed p
    → IsIndexed (replace_program index new p)
unfolding replace_program erase_index
replace_program-IsIndexed index new p h v = record {
  agrees = λ path i.
      let kept = λ (q : Text). on_indices (erase_index index) (p.program_indices q) in
      ap (mem_index i) (or_empty-nonempty (add_indices index new.source_files kept path))
      ∙ mem_index-add_indices index i new.source_files kept path
      ∙ ap (λ b. b || (mem_text path new.source_files && (index == i)))
          (ap (mem_index i)
              (or_empty-on_indices (erase_index index) (p.program_indices path) nothing)
            ∙ mem_index-erase_index index i (or_empty (p.program_indices path))
            ∙ ap (λ b. not (index == i) && b) (v.agrees path i))
      ∙ sym (has_file-set path i index p.programs new h);
}
  where
    nothing : erase_index index [] ≡ []
    nothing = refl
