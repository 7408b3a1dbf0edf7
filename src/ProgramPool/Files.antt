-- ===== src/ProgramPool/Files.antt =====
-- src/lsp/ProgramPool.cpp: the files that the editor has open or has changed.
use bashpp.Prelude.{
  ℕ, Bool, false, not, ◌&&◌, ◌||◌, List, [], ◌∷◌, Option, none, some, get_elem?, ltb, if◌then◌else◌,
  Text, same_text,
}
use bashpp.ProgramPool.{Pool, update_snapshot, remove_program}

unfoldable pub set_unsaved_file_contents : Text → Text → Pool → Pool
unfolding same_text
set_unsaved_file_contents file_path contents p = update_snapshot (record p {
  unsaved_changes =
      λ path. if same_text path file_path then some contents else p.unsaved_changes path;
})

unfoldable pub remove_unsaved_file_contents : Text → Pool → Pool
unfolding same_text
remove_unsaved_file_contents file_path p = update_snapshot (record p {
  unsaved_changes = λ path. if same_text path file_path then none else p.unsaved_changes path;
})

-- The unsaved contents, or those on disk, which `read` looks up; an unreadable file is empty.
unfoldable pub get_file_contents : (Text → Option Text) → Text → Pool → Text
get_file_contents read file_path p = elim (p.unsaved_changes file_path) [
  | some contents ↦ contents
  | none ↦ elim (read file_path) [ some contents ↦ contents | none ↦ [] ]
]

unfoldable pub open_file : Text → Pool → Pool
unfolding same_text
open_file file_path p = elim (p.program_indices file_path) [
  | none ↦ p
  | some is ↦
      update_snapshot
        (record p { open_files = λ path. same_text path file_path || p.open_files path })
]

-- `sort(indices.rbegin(), indices.rend())`
unfoldable pub insert_descending : ℕ → List ℕ → List ℕ
insert_descending i [] = i ∷ []
insert_descending i (j ∷ js) =
    let rest = insert_descending i js in if ltb i j then j ∷ rest else i ∷ (j ∷ js)

unfoldable pub sort_descending : List ℕ → List ℕ
unfolding insert_descending
sort_descending [] = []
sort_descending (i ∷ is) = insert_descending i (sort_descending is)

unfoldable pub any_open : (Text → Bool) → List Text → Bool
any_open open_files [] = false
any_open open_files (f ∷ fs) = open_files f || any_open open_files fs

unfoldable pub close_each : List ℕ → Pool → Pool
unfolding any_open remove_program
close_each [] p = p
close_each (i ∷ is) p = close_each is (elim (get_elem? p.programs i) [
  | none ↦ p
  | some d ↦ if any_open p.open_files d.source_files then p else remove_program i p
])

unfoldable pub close_file : Text → Pool → Pool
unfolding same_text sort_descending close_each
close_file file_path p =
    let closed = record p {
      open_files = λ path. p.open_files path && not (same_text path file_path);
    } in
    if p.open_files file_path
    then elim (p.program_indices file_path) [
      | none ↦ closed
      | some is ↦ update_snapshot (close_each (sort_descending is) closed)
    ]
    else p

unfoldable pub clean : Pool → Pool
clean p =
    update_snapshot
      (record p { programs = []; program_indices = λ path. none; open_files = λ path. false })
