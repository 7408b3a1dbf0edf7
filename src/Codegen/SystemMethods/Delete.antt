-- ===== src/Codegen/SystemMethods/Delete.antt =====
-- `generate_delete_method` of src/bpp_include/bpp_codegen.cpp.
use bashpp.Prelude.{ℕ, true, List, [], ◌∷◌, ◌++◌, Option, none, some, if◌then◌else◌, lit, concat}
use bashpp.Classes.Store.{Store, Method}
use bashpp.Classes.Members.{datamembers_of}
use bashpp.CodeBuffers.{CodeEntity, fresh, add_code, flush_code_buffers}
use bashpp.Codegen.Program.{Program}
use bashpp.Codegen.Segments.{full_code, generate_delete_code}
use bashpp.Codegen.SystemMethods.{field, system_method}

-- The code that a loop over the data members adds to `__delete`.
pub delete_member : Store → ℕ → CodeEntity → Program → Option (CodeEntity × Program)
unfolding add_code generate_delete_code full_code
delete_member s d e p =
    let m = s.datamember d in
    let address = field (lit "${__this}") m in
    let unset = concat (lit "unset \"" ∷ address ∷ lit "\"\n" ∷ []) in
    let e1 = add_code (m.pre_access_code ++ lit "\n") true e in
    let last_line = add_code (m.post_access_code ++ lit "\n") true in
    elim m.type [
      | none ↦ some (last_line (add_code unset true e1), p)
      | some c ↦
          if m.pointer
          then some (last_line (add_code unset true e1), p)
          else elim (generate_delete_code s c address p) [
            | none ↦ none
            | some (inner, p') ↦ some (
              last_line (add_code unset true (add_code (full_code inner ++ lit "\n") true e1)),
              p',
            )
          ]
    ]

pub delete_members : Store → List ℕ → CodeEntity → Program → Option (CodeEntity × Program)
unfolding delete_member
delete_members s [] e p = some (e, p)
delete_members s (d ∷ ds) e p = elim (delete_member s d e p) [
  | none ↦ none
  | some (e', p') ↦ delete_members s ds e' p'
]

unfoldable pub generate_delete_method : Store → ℕ → Program → Option (Method × Program)
unfolding delete_members add_code flush_code_buffers
generate_delete_method s c p = elim (delete_members s (datamembers_of s c) fresh p) [
  | none ↦ none
  | some (e, p') ↦
      let e' = add_code (lit "unset \"${__this}____vPointer\"\n") true e in
      some (system_method (lit "__delete") true c [] (flush_code_buffers e').code, p')
]
