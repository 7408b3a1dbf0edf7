-- ===== src/Codegen/SystemMethods/Copy.antt =====
-- `generate_copy_method` of src/bpp_include/bpp_codegen.cpp. Its parameter cannot be refused: no
-- identifier of a program holds two underscores.
use bashpp.Prelude.{ℕ, true, false, [], ◌∷◌, Option, none, some, if◌then◌else◌, Text, lit, concat}
use bashpp.Classes.Store.{Store, Method, Datamember}
use bashpp.Classes.Members.{datamembers_of}
use bashpp.CodeBuffers.{
  fresh, add_code, add_code_to_previous_line, add_code_to_next_line, flush_code_buffers,
}
use bashpp.Codegen.Program.{Program}
use bashpp.Codegen.Segments.{generate_method_call_code, generate_dynamic_cast_code}
use bashpp.Codegen.SystemMethods.{Generated, field, each_member, system_method}

abbrev copy_from : Text
copy_from = lit "__copyFromPtr"

-- The code by which `__copy` copies one member.
pub copy_member : Store → Datamember → Program → Generated
unfolding generate_method_call_code
copy_member s d p =
    let source = concat (lit "${" ∷ copy_from ∷ lit "}__" ∷ d.name ∷ []) in
    let temporary = concat (lit "__" ∷ copy_from ∷ lit "__" ∷ d.name ∷ []) in
    let value = concat (
      lit "\tlocal "
      ∷ temporary
      ∷ lit "=\""
      ∷ source
      ∷ lit "\"\n"
      ∷ lit "\teval \"${__this}__"
      ∷ d.name
      ∷ lit "=\\${!"
      ∷ temporary
      ∷ lit "}\"\n"
      ∷ []) in
    elim d.type [
      | none ↦ some (value, p)
      | some c ↦
          if d.pointer
          then some (value, p)
          else elim (generate_method_call_code s (field (lit "${__this}") d) (lit "__copy") c false
              p) [
                | none ↦ none
                | some (call, p') ↦ some (
                  concat (
                      call.pre_code
                      ∷ lit "\n"
                      ∷ call.code
                      ∷ lit " "
                      ∷ source
                      ∷ lit "\n"
                      ∷ call.post_code
                      ∷ lit "\n"
                      ∷ []),
                  p',
                )
              ]
    ]

-- The refusal to copy from an object of another type.
abbrev check_types : Text → Text
check_types class_name = concat (
    lit "if [[ ${"
    ∷ copy_from
    ∷ lit "} == 0 ]]; then\n\t>&2 echo \"Bash++: Error: "
    ∷ class_name
    ∷ lit ": Attempted to copy between incompatible types.\"\n\treturn 1\nfi\n"
    ∷ [])

unfoldable pub generate_copy_method : Store → ℕ → Program → Option (Method × Program)
unfolding generate_dynamic_cast_code copy_member each_member add_code add_code_to_previous_line
    add_code_to_next_line flush_code_buffers
generate_copy_method s c p =
    let name = (s.class_at c).name in
    let (cast, p') = generate_dynamic_cast_code copy_from name p in
    let e1 = add_code_to_next_line cast.post_code (add_code_to_previous_line cast.pre_code fresh) in
    let e2 = add_code (concat (copy_from ∷ lit "=" ∷ cast.code ∷ lit "\n" ∷ [])) true e1 in
    let e3 = add_code_to_previous_line (check_types name) e2 in
    elim (each_member s (copy_member s) (datamembers_of s c) p') [
      | none ↦ none
      | some (code, p'') ↦
          let e4 = flush_code_buffers (add_code code true e3) in
          some (system_method (lit "__copy") true c (copy_from ∷ []) e4.code, p'')
    ]
