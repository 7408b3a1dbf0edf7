-- ===== src/Tests/Structures.antt =====
-- The maps, the tree, the names and the pool on small inputs.
use bashpp.Prelude.{
  ℕ, true, false, List, [], ◌∷◌, Option, none, some, ◌≡◌, ◌<◌, ◌≤◌, ◌^◌, ◌↔◌, inl, inr, refl, arith,
  get_elem?, if◌then◌else◌, Text, lit, same_text, mem_text, IsIn,
}
use bashpp.IntervalTree.{FlatIntervalTree, empty, insert as tree_insert, find_innermost_overlap}
use bashpp.IntervalTree.Order.{IsValid}
use bashpp.IntervalTree.Innermost.{Answers, find_innermost_overlap-Answers}
use bashpp.EntityMap.{FilePosition, position_key, AtOrBefore, position_key-le, find}
use bashpp.EntityMap.Regions.{Region, IsRegion, NestedOrDisjoint, mark_all, Active, find-mark_all}
use bashpp.Entities.{Named, add, get_class, get_all_known_classes, find as find_named}
use bashpp.Entities.Visibility.{is_missing, or_else, find-add, get_class-add}
use bashpp.Ast.{Node, raw_text, other, add_children}
use bashpp.Ast.Children.{
  add_each_child, IsMerged, add_children-add_each_child, add_children-IsMerged,
}
use bashpp.ProgramPool.{
  Document, Snapshot, Pool, get_program, push_program, re_parse_programs, mem_index,
}
use bashpp.ProgramPool.{create_program, subsume, is_subsumed}
use bashpp.ProgramPool.Subsume.{get_program-subsumes}
use bashpp.ProgramPool.Files.{close_file}
use bashpp.ProgramPool.Indices.{IsIndexed, has_file, push_program-IsIndexed}
use bashpp.ProgramPool.Operations.{
  get_program-IsIndexed, re_parse_programs-IsIndexed, close_file-IsIndexed,
}
use bashpp.ProgramPool.Answers.{get_program-known}
use bashpp.ProgramPool.Bounded.{
  Call, gets, changes, parses_again, closes, IsBounded, answer_all, answer_all-IsBounded,
}

-- Interval 1 around interval 2.
abbrev nested : FlatIntervalTree ℕ
nested = tree_insert (tree_insert empty 0 9 1) 2 5 2

find_innermost_overlap_run : (find_innermost_overlap nested 4).1 ≡ some 2
unfolding find_innermost_overlap tree_insert
find_innermost_overlap_run = refl

find_innermost_overlap-Answers_example :
    IsValid (find_innermost_overlap nested 4).0
    × Answers 4 nested.intervals (find_innermost_overlap nested 4).1
unfolding tree_insert
find_innermost_overlap-Answers_example = find_innermost_overlap-Answers nested 4 (λ e. cc)

abbrev at : ℕ → ℕ → FilePosition
at line column = record { line = line; column = column }

position_key-le_example :
    (position_key (at 1 9) < 2 ^ 64)
    × ((position_key (at 1 9) ≤ position_key (at 2 0)) ↔ AtOrBefore (at 1 9) (at 2 0))
position_key-le_example = position_key-le (at 1 9) (at 2 0) (omega arith) (omega arith)

abbrev regions : List (Region ℕ)
regions =
    record { start = at 0 0; end = at 9 0; entity = 1 }
    ∷ record { start = at 2 0; end = at 5 0; entity = 2 }
    ∷ []

regions_ok : (r : Region ℕ) → IsIn r regions → IsRegion r
regions_ok r (inl e) = rw e (omega arith)
regions_ok r (inr (inl e)) = rw e (omega arith)
regions_ok r (inr (inr n)) = elim n [ ]

regions_nested : (r s : Region ℕ) → IsIn r regions → IsIn s regions → NestedOrDisjoint r s
regions_nested r s (inl e) (inl f) = rw (e, f) (λ p h k. inl (ground arith))
regions_nested r s (inl e) (inr (inl f)) = rw (e, f) (λ p h k. inr (ground arith))
regions_nested r s (inr (inl e)) (inl f) = rw (e, f) (λ p h k. inl (ground arith))
regions_nested r s (inr (inl e)) (inr (inl f)) = rw (e, f) (λ p h k. inl (ground arith))
regions_nested r s (inr (inr n)) m = elim n [ ]
regions_nested r s (inl e) (inr (inr n)) = elim n [ ]
regions_nested r s (inr (inl e)) (inr (inr n)) = elim n [ ]

find-mark_all_example : Active (at 3 1) regions (find (mark_all empty regions) (at 3 1)).1
find-mark_all_example = find-mark_all regions (at 3 1) (omega arith) regions_ok regions_nested

abbrev box : Named
box = record { name = lit "Box"; id = 7 }

abbrev others : List Named
others = record { name = lit "Lid"; id = 3 } ∷ []

find-add_example :
    ((add box others).1 ≡ is_missing (find_named (lit "Box") none others))
    × (find_named (lit "Lid") none (add box others).0
        ≡ or_else
            (find_named (lit "Lid") none others)
            (if same_text (lit "Box") (lit "Lid") then some box else none))
find-add_example = find-add box others (lit "Lid")

get_class-add_example :
    (get_class (lit "Box") 1 (add box others).0 ≡ some box)
    × (get_all_known_classes 1 (add box others).0 ≡ others)
unfolding add lit same_text
get_class-add_example = get_class-add box others refl

abbrev new_children : List (Option Node)
new_children = some (raw_text (lit "a")) ∷ none ∷ some (raw_text (lit "b")) ∷ some (other 4) ∷ []

add_children-add_each_child_example :
    add_children (other 1 ∷ []) new_children ≡ add_each_child (other 1 ∷ []) new_children
add_children-add_each_child_example = add_children-add_each_child (other 1 ∷ []) new_children

add_children-IsMerged_example : IsMerged (add_children (other 1 ∷ []) new_children)
add_children-IsMerged_example = add_children-IsMerged (other 1 ∷ []) new_children tt

-- A file that includes a library.
abbrev pub main_file : Document
main_file = record { main_source_file = lit "main"; source_files = lit "main" ∷ lit "library" ∷ [] }

abbrev parse : Text → (Text → Option Text) → Option Document
parse path unsaved = if same_text path (lit "main") then some main_file else none

abbrev no_snapshot : Snapshot
no_snapshot = record {
  programs = [];
  program_indices = λ path. none;
  open_files = λ path. false;
  unsaved_changes = λ path. none;
}

abbrev empty_pool : Pool
empty_pool = record {
  max_programs = 10;
  programs = [];
  program_indices = λ path. none;
  open_files = λ path. false;
  unsaved_changes = λ path. none;
  snapshot = no_snapshot;
}

empty_pool-IsIndexed : IsIndexed empty_pool
unfolding mem_index has_file
empty_pool-IsIndexed = record { agrees = λ path i. refl }

abbrev pub one_program : Pool
one_program = push_program (lit "main") main_file empty_pool

one_program-IsIndexed : IsIndexed one_program
one_program-IsIndexed =
    push_program-IsIndexed (lit "main") main_file empty_pool empty_pool-IsIndexed

get_program-IsIndexed_example : IsIndexed (get_program parse (lit "main") false empty_pool).0
get_program-IsIndexed_example =
    get_program-IsIndexed parse (lit "main") false empty_pool empty_pool-IsIndexed

re_parse_programs-IsIndexed_example : IsIndexed (re_parse_programs parse (lit "main") one_program).0
re_parse_programs-IsIndexed_example =
    re_parse_programs-IsIndexed parse (lit "main") one_program one_program-IsIndexed

close_file-IsIndexed_example : IsIndexed (close_file (lit "main") one_program)
close_file-IsIndexed_example = close_file-IsIndexed (lit "main") one_program one_program-IsIndexed

get_program-known_example :
    (d : Document) × (get_program parse (lit "library") false one_program ≡ (one_program, some d))
    × (get_elem? one_program.programs 0 ≡ some d)
    × (mem_text (lit "library") d.source_files ≡ true)
unfolding push_program lit
get_program-known_example =
    get_program-known parse (lit "library") 0 [] one_program one_program-IsIndexed refl

abbrev calls : List Call
calls =
    gets (lit "main") false
    ∷ (changes (lit "main") (lit "@") ∷ (parses_again (lit "main") ∷ (closes (lit "main") ∷ [])))

answer_all-IsBounded_example : IsBounded 10 (answer_all parse calls empty_pool)
answer_all-IsBounded_example =
    answer_all-IsBounded parse 10 calls empty_pool (omega arith) (refl, omega arith)

abbrev other_file : Document
other_file = record { main_source_file = lit "other"; source_files = lit "other" ∷ [] }

abbrev other_program : Pool
other_program = push_program (lit "other") other_file empty_pool

get_program-subsumes_example : is_subsumed (lit "main") main_file other_file ≡ false
unfolding push_program get_program create_program subsume lit same_text mem_text is_subsumed
get_program-subsumes_example =
    get_program-subsumes parse (lit "main") main_file other_program 0 other_file refl refl
      (omega arith) refl
