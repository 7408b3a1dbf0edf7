-- ===== src/Codegen/SystemMethods.antt =====
-- The methods that the compiler writes for every class: `__new`, `__delete` and `__copy` of
-- src/bpp_include/bpp_codegen.cpp. Each is answered as the method object; its number and its place in
-- a class are `add_method`'s business. `add_code` and the like are those of a code entity.
pub mod Delete
pub mod Copy
pub mod Nesting
use bashpp.Prelude.{
  ℕ, zero, suc, Bool, true, false, ◌||◌, List, [], ◌∷◌, ◌++◌, Option, none, some, ◌==◌,
  if◌then◌else◌, Text, lit, concat,
}
use bashpp.Classes.Store.{Store, Method, Datamember, scope_public}
use bashpp.Classes.Members.{datamembers_of}
use bashpp.CodeBuffers.{
  CodeEntity, fresh, add_code, add_code_to_previous_line, add_code_to_next_line, flush_code_buffers,
}
use bashpp.Codegen.Program.{Program}
use bashpp.Codegen.Segments.{
  CodeSegment, full_code, generate_supershell_code, generate_method_call_code,
  generate_constructor_call_code, generate_delete_code, generate_dynamic_cast_code,
}

-- `!s.empty() && s[0] == '$'`
abbrev begins_with_dollar : Text → Bool
begins_with_dollar [] = false
begins_with_dollar (c ∷ s) = c == b'$'

-- The name of a data member's variable below an address.
abbrev pub field : Text → Datamember → Text
field address d = concat (address ∷ lit "__" ∷ d.name ∷ [])

abbrev local_if : Bool → Text
local_if inline_new = if inline_new then lit "local " else []

-- `\teval "[local ]<address>__<name>=<value>"`
abbrev assign : Bool → Text → Datamember → Text → Text
assign inline_new address d value =
    concat
      (lit "\teval \"" ∷ local_if inline_new ∷ field address d ∷ lit "=" ∷ value ∷ lit "\"\n" ∷ [])

abbrev assign_primitive : Bool → Text → Datamember → Text
assign_primitive inline_new address d =
    if d.array
    then assign inline_new address d d.default_value
    else concat (
        lit "\tlocal __objAssignment="
        ∷ d.default_value
        ∷ lit "\n"
        ∷ assign inline_new address d (lit "\\$__objAssignment")
        ∷ lit "\tunset __objAssignment\n"
        ∷ [])

abbrev assign_pointer : Bool → Text → Datamember → Text
assign_pointer inline_new address d =
    assign inline_new address d
      ((if begins_with_dollar d.default_value then lit "\\" else []) ++ d.default_value)

-- The call of the constructor of a member object; without one, the empty segment.
abbrev construct : Store → Text → ℕ → Text
construct s address c = full_code (generate_constructor_call_code s address c)

-- What a generator answers: code, and the program with its counters moved on. `none` stands for the
-- internal error of a method that was not found, or for fuel that ran out.
abbrev pub Generated : Type 0
Generated = Option (Text × Program)

-- A member object: inlined by `inlined`, or made by its class's `__new` in a supershell.
pub new_object :
    Store → (Text → ℕ → Program → Generated) → Text → Bool → Datamember → ℕ → Program → Generated
unfolding generate_supershell_code generate_constructor_call_code full_code
new_object s inlined address inline_new d c p =
    let built = construct s (field address d) c in
    let (shell, p') =
      generate_supershell_code (concat (lit "bpp__" ∷ (s.class_at c).name ∷ lit "____new" ∷ []))
        p in
    let boxed =
      concat (shell.pre_code ∷ assign false address d shell.code ∷ shell.post_code ∷ built ∷ []) in
    if inline_new
    then elim (inlined (field address d) c p) [
      | none ↦ none
      | some (body, p'') ↦ some (
        concat (
            full_code (record { pre_code = body; code = []; post_code = [] })
            ∷ lit "\n"
            ∷ built
            ∷ []),
        p'',
      )
    ]
    else some (boxed, p')

-- The three cases of the loop over the data members.
pub new_member :
    Store → (Text → ℕ → Program → Generated) → Text → Bool → Datamember → Program → Generated
unfolding new_object
new_member s inlined address inline_new d p = elim d.type [
  | none ↦ some (assign_primitive inline_new address d, p)
  | some c ↦
      if d.pointer
      then some (assign_pointer inline_new address d, p)
      else new_object s inlined address inline_new d c p
]

-- The loops over the data members: each one's code between its access codes.
pub each_member : Store → (Datamember → Program → Generated) → List ℕ → Program → Generated
each_member s body [] p = some ([], p)
each_member s body (d ∷ ds) p = elim (body (s.datamember d) p) [
  | none ↦ none
  | some (code, p') ↦ elim (each_member s body ds p') [
    | none ↦ none
    | some (rest, p'') ↦ some (
      concat (
          (s.datamember d).pre_access_code
          ∷ lit "\n"
          ∷ code
          ∷ (s.datamember d).post_access_code
          ∷ lit "\n"
          ∷ rest
          ∷ []),
      p'',
    )
  ]
]

-- The pre-code of `generate_code_for_new_method`, which sets no other field of its segment. The fuel
-- bounds how deep member objects are nested, which the source leaves to the stack.
unfoldable pub generate_code_for_new_method : ℕ → Store → Bool → Text → ℕ → Program → Generated
unfolding new_member each_member
generate_code_for_new_method zero s inline_new address c p = none
generate_code_for_new_method (suc fuel) s inline_new address c p =
    let head = concat (
      lit "\teval \""
      ∷ local_if inline_new
      ∷ address
      ∷ lit "____vPointer=bpp__"
      ∷ (s.class_at c).name
      ∷ lit "____vTable\"\n"
      ∷ []) in
    let inlined =
      λ (a : Text) (k : ℕ) (q : Program). generate_code_for_new_method fuel s true a k q in
    elim (each_member s (new_member s inlined address inline_new) (datamembers_of s c) p) [
      | none ↦ none
      | some (members, p') ↦ some (head ++ members, p')
    ]

-- `generate_new_code`
unfoldable pub generate_new_code : ℕ → Store → Text → ℕ → Bool → Bool → Program → Generated
unfolding generate_code_for_new_method
generate_new_code fuel s new_address new_class inline_new silent p =
    let call = concat (
      lit "bpp__"
      ∷ (s.class_at new_class).name
      ∷ lit "____new "
      ∷ new_address
      ∷ (if silent then lit " >/dev/null" else [])
      ∷ lit "\n"
      ∷ []) in
    if inline_new
    then generate_code_for_new_method fuel s true new_address new_class p
    else some (call, p)

-- A method object as the generators make it. `copy_from` is the only parameter of `__copy`.
abbrev pub system_method : Text → Bool → ℕ → List Text → Text → Method
system_method name virtual containing_class parameters code = record {
  name = name;
  scope = scope_public;
  virtual = virtual;
  overridable = true;
  inherited = false;
  last_override = [];
  containing_class = some containing_class;
  overridden_method = none;
  initial_definition = record { file = []; line = 0; column = 0 };
  references = [];
  code = code;
  parameters = parameters;
}

unfoldable pub generate_new_method : Store → ℕ → Program → Option (Method × Program)
unfolding generate_code_for_new_method full_code add_code_to_previous_line flush_code_buffers
generate_new_method s c p = elim (generate_code_for_new_method 1 s false (lit "${__this}") c p) [
  | none ↦ none
  | some (assignments, p') ↦
      let named = concat (
        lit "if [[ \"${__this}\" == \"\" ]]; then\n\twhile : ; do\n\t\t__this=\"bpp__"
        ∷ (s.class_at c).name
        ∷ lit "__$RANDOM$RANDOM$RANDOM$RANDOM\"\n"
        ∷ lit "\t\tlocal __unusedVar=\"${__this}____vPointer\"\n"
        ∷ lit "\t\t[[ -z \"${!__unusedVar+x}\" ]] && break\n\tdone\nfi\n"
        ∷ []) in
      let segment : CodeSegment = record { pre_code = assignments; code = []; post_code = [] } in
      let body = add_code_to_previous_line (lit "echo \"${__this}\"\n") (
        add_code_to_previous_line (full_code segment ++ lit "\n")
          (add_code_to_previous_line named fresh)) in
      some (system_method (lit "__new") false c [] (flush_code_buffers body).code, p')
]
