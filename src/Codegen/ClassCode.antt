-- ===== src/Codegen/ClassCode.antt =====
-- `prepare_class` and `add_class` of src/bpp_include/bpp_program.cpp, and `replace_all` of
-- src/bpp_include/replace_all.cpp: the functions and the vTable that a class is compiled to.
pub mod Function
pub mod Dispatch
pub mod Prepared
pub mod Replace
use bashpp.Prelude.{
  ℕ, zero, suc, ◌+◌, ◌-◌, Bool, true, false, not, ◌&&◌, List, [], ◌∷◌, ◌++◌, Option, none, some,
  if◌then◌else◌, Text, lit, concat, is_empty, starts_with, same_text, to_string, length, last,
}
use bashpp.Classes.Store.{Store, Method, Class}
use bashpp.Classes.Members.{methods_of}
use bashpp.CodeBuffers.{CodeEntity}
use bashpp.Codegen.Templates.{template_method, this_pointer_validation}
use bashpp.Entities.{Named, add, find}

-- The loop of `replace_all`; `skip` is how much of an occurrence is still to be passed over.
unfoldable pub replace_from : Text → Text → ℕ → Text → Text
unfolding starts_with
replace_from from to skip [] = []
replace_from from to (suc skip) (c ∷ s) = replace_from from to skip s
replace_from from to zero (c ∷ s) =
    let hit = starts_with from (c ∷ s) in
    let rest = replace_from from to (if hit then length from - 1 else 0) s in
    if hit then to ++ rest else c ∷ rest

unfoldable pub replace_all : Text → Text → Text → Text
unfolding replace_from
replace_all str from to = if is_empty from then str else replace_from from to 0 str

-- The parameters from the `i`-th on, each with its positional variable.
unfoldable pub parameter_list : ℕ → List Text → Text
unfolding to_string concat
parameter_list i [] = []
parameter_list i (p ∷ []) = concat (p ∷ lit "=\"$" ∷ to_string (i + 1) ∷ lit "\"" ∷ [])
parameter_list i (p ∷ (q ∷ ps)) =
    concat (
      p
      ∷ lit "=\"$"
      ∷ to_string (i + 1)
      ∷ lit "\""
      ∷ lit " "
      ∷ parameter_list (i + 1) (q ∷ ps)
      ∷ [])

abbrev pub local_parameters : List Text → Text
local_parameters [] = []
local_parameters (p ∷ ps) = lit "local " ++ parameter_list 0 (p ∷ ps)

-- The calls of `replace_all` behind the first one.
unfoldable pub fill_template : Text → Text → Text → Text → Text → Text
unfolding replace_all
fill_template t1 class_name name params body =
    let t2 = replace_all t1 (lit "%CLASS%") class_name in
    let t3 = replace_all t2 (lit "%SIGNATURE%") name in
    let t4 = replace_all t3 (lit "%PARAMS%") params in replace_all t4 (lit "%METHODBODY%") body

-- The template of a method, filled in. `__new` has no pointer to validate.
unfoldable pub method_code : Text → Method → Text
unfolding replace_all fill_template parameter_list same_text
method_code class_name m =
    let validation = if same_text m.name (lit "__new") then [] else this_pointer_validation in
    let t1 = replace_all template_method (lit "%THIS_POINTER_VALIDATION%") validation in
    fill_template t1 class_name m.name (local_parameters m.parameters) m.code

-- The entry of the vTable of `class_name` for a method of `owner`.
abbrev pub vtable_entry : Text → Text → Text → Text
vtable_entry class_name method_name owner = concat (
    lit "bpp__"
    ∷ class_name
    ∷ lit "____vTable[\""
    ∷ method_name
    ∷ lit "\"]=\"bpp__"
    ∷ owner
    ∷ lit "__"
    ∷ method_name
    ∷ lit "\"\n"
    ∷ [])

-- What a round of the loop over the methods adds to the code and to the vTable.
unfoldable pub emit_method : Text → Method → Text × Text
unfolding method_code same_text
emit_method class_name m =
    let code = method_code class_name m in
    if m.inherited && not m.virtual
    then ([], [])
    else if m.virtual
    then if not (same_text m.last_override class_name)
      then ([], vtable_entry class_name m.name m.last_override)
      else (code, vtable_entry class_name m.name class_name)
    else (code, [])

unfoldable pub emit_methods : Store → Text → List ℕ → Text × Text
unfolding emit_method
emit_methods s class_name [] = ([], [])
emit_methods s class_name (m ∷ ms) =
    let (code, vtable) = emit_method class_name (s.method m) in
    let (codes, vtables) = emit_methods s class_name ms in (code ++ codes, vtable ++ vtables)

-- The declaration of the vTable, with the entry for the parent.
unfoldable pub vtable_head : Store → ℕ → Text
unfolding last concat
vtable_head s c =
    let name = (s.class_at c).name in
    concat (
      lit "declare -A bpp__"
      ∷ name
      ∷ lit "____vTable\n"
      ∷ elim (last (s.class_at c).parents) [
        | none ↦ []
        | some parent ↦ concat (
            lit "bpp__"
            ∷ name
            ∷ lit "____vTable[\"__parent__\"]=\"bpp__"
            ∷ (s.class_at parent).name
            ∷ lit "____vTable\"\n"
            ∷ [])
      ]
      ∷ [])

-- The classes of the program afterwards, and whether the name was new.
unfoldable pub prepare_class : Store → ℕ → List Named → List Named × Bool
unfolding find add
prepare_class s c classes = elim (find (s.class_at c).name none classes) [
  | some known ↦ (classes, false)
  | none ↦ ((add (record { name = (s.class_at c).name; id = c }) classes).0, true)
]

-- Only a class that was prepared is written.
unfoldable pub add_class : Store → ℕ → List Named → CodeEntity → CodeEntity × Bool
unfolding find emit_methods vtable_head
add_class s c classes output =
    let (code, vtable) = emit_methods s (s.class_at c).name (methods_of s c) in
    elim (find (s.class_at c).name none classes) [
      | none ↦ (output, false)
      | some known ↦
          (record output { code = output.code ++ (code ++ (vtable_head s c ++ vtable)) }, true)
    ]
