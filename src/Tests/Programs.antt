-- ===== src/Tests/Programs.antt =====
-- A class with a method and an object of it, and the code of statements and references.
use bashpp.Prelude.{
  ℕ, zero, suc, true, false, [], ◌∷◌, ◌++◌, Option, none, some, ◌≡◌, ◌↔◌, inr, refl, arith,
  if◌then◌else◌, Text, lit, same_text, contains, concat, contains_byte,
}
use bashpp.Classes.Store.{Scope, scope_public, scope_private, Method, Datamember, Class, Store}
use bashpp.Classes.Members.{find_method, find_datamember, methods_of, add_method, add_datamember}
use bashpp.Classes.Members.Insert.{find_method-add_method}
use bashpp.Classes.Members.Invariant.{IsClass, add_method-IsClass, add_datamember-IsClass}
use bashpp.Classes.Lookup.{get_method, get_datamember, member, inaccessible}
use bashpp.Classes.Lookup.Permission.{Permits, get_method_iff}
use bashpp.Classes.Inherit.{inherit}
use bashpp.Classes.Inherit.Aliasing.{get_method-inherit}
use bashpp.CodeBuffers.{fresh}
use bashpp.CodeBuffers.Statements.{Statement, emit_all, blocks, IsFlushed, emit_all-blocks}
use bashpp.CommandSequence.{get_code, get_pre_code, get_post_code}
use bashpp.CommandSequence.Render.{Pipeline, sequence, render, get_code-sequence}
use bashpp.Codegen.Templates.{
  bpp_supershell_function, bpp_vtable_lookup, bpp_dynamic_cast, bpp_typeof_function,
}
use bashpp.Codegen.Program.{
  Program, bash_5_3, increment_supershell_counter, increment_function_counter,
  increment_dynamic_cast_counter, increment_typeof_counter,
}
use bashpp.Codegen.Program.Helpers.{repeat, once, increment_counters-helpers}
use bashpp.BashVersion.{older}
use bashpp.Codegen.SystemMethods.{generate_code_for_new_method}
use bashpp.Codegen.SystemMethods.Nesting.{IsDepth, Succeeds, generate_code_for_new_method-Succeeds}
use bashpp.Codegen.Resolve.{
  Object, EntityReference, resolved, StartingPoint, starting_point, datamember_entity, ref_object,
  get_encased_ref, resolve_reference_impl,
}
use bashpp.Codegen.Resolve.Walk.{Reaches, resolve_reference_impl-Reaches}
use bashpp.Codegen.Resolve.Temporaries.{Balanced, resolve_reference_impl-Balanced}

abbrev method_named : Text → Scope → Method
method_named name scope = record {
  name = name;
  scope = scope;
  virtual = false;
  overridable = false;
  inherited = false;
  last_override = [];
  containing_class = none;
  overridden_method = none;
  initial_definition = record { file = []; line = 0; column = 0 };
  references = [];
  code = [];
  parameters = [];
}

abbrev member_named : Text → Option ℕ → Datamember
member_named name type = record {
  name = name;
  scope = scope_public;
  containing_class = none;
  type = type;
  pointer = false;
  array = false;
  default_value = [];
  pre_access_code = [];
  post_access_code = [];
}

-- Class 0 has a private method 0; methods 1 and up are public and named `open`. Class 2 has a member
-- of class 2.
abbrev methods : ℕ → Method
methods zero = method_named (lit "shut") scope_private
methods (suc m) = method_named (lit "open") scope_public

abbrev classes : ℕ → Class
classes zero = record {
  name = lit "Box";
  methods = 0 ∷ [];
  datamembers = [];
  parents = [];
  has_custom_to_primitive = false;
}
classes (suc c) = record {
  name = lit "Lid";
  methods = [];
  datamembers = 5 ∷ [];
  parents = [];
  has_custom_to_primitive = false;
}

abbrev pub store : Store
store = record {
  method = methods;
  datamember = λ d. member_named (lit "next") (some 2);
  class_at = classes;
  next_method = 9;
}

store-IsClass : IsClass store 0
unfolding find_method find_datamember
store-IsClass = record {
  methods_distinct = (refl, tt);
  data_distinct = tt;
  disjoint = λ n. inr refl;
}

find_method-add_method_example :
    find_method (add_method 0 1 store).0 (lit "open") (methods_of (add_method 0 1 store).0 0) ≡ (
      if same_text (lit "open") (lit "open")
      then some 1
      else find_method store (lit "open") (methods_of store 0))
unfolding add_method find_method lit same_text
find_method-add_method_example = find_method-add_method 0 1 store (lit "open") (refl, tt) refl

add_method-IsClass_example : IsClass (add_method 0 1 store).0 0
unfolding add_method lit same_text
add_method-IsClass_example = add_method-IsClass 0 1 store store-IsClass refl

add_datamember-IsClass_example : IsClass (add_datamember 0 5 store).0 0
unfolding add_datamember lit same_text
add_datamember-IsClass_example = add_datamember-IsClass 0 5 store store-IsClass refl

get_method_iff_example : (get_method store (lit "shut") 0 (some 0) ≡ member 0) ↔ (
    (find_method store (lit "shut") (methods_of store 0) ≡ some 0)
    × Permits scope_private 0 (some 0))
get_method_iff_example = get_method_iff store (lit "shut") 0 (some 0) 0

get_method-inherit_example :
    (get_method store (lit "shut") 0 (some 0) ≡ member 0)
    × (get_method (inherit 1 0 store) (lit "shut") 0 (some 0) ≡ inaccessible)
unfolding find_method lit same_text
get_method-inherit_example =
    get_method-inherit 1 0 0 (lit "shut") store (λ e. cc) refl (λ e. cc) refl

abbrev statement : Statement
statement = record { pre_code = lit "local a=1\n"; code = lit "echo"; post_code = lit "unset a\n" }

emit_all-blocks_example :
    ((emit_all (statement ∷ []) fresh).code ≡ [] ++ blocks (statement ∷ []))
    × IsFlushed (emit_all (statement ∷ []) fresh)
unfolding lit contains_byte
emit_all-blocks_example =
    emit_all-blocks (statement ∷ []) fresh (((λ e. cc), refl), tt) (refl, refl)

abbrev pipeline : Pipeline
pipeline = record { pre_code = lit "a=1"; main_code = lit "run"; post_code = [] }

get_code-sequence_example :
    (get_code (sequence pipeline ((true, pipeline) ∷ [])) ≡ render pipeline ((true, pipeline) ∷ []))
    × (get_pre_code (sequence pipeline ((true, pipeline) ∷ [])) ≡ [])
    × (get_post_code (sequence pipeline ((true, pipeline) ∷ [])) ≡ [])
unfolding lit
get_code-sequence_example =
    get_code-sequence pipeline ((true, pipeline) ∷ []) (λ e. cc) ((λ e. cc), tt)

abbrev pub program : Program
program = record {
  supershell_counter = 0;
  assignment_counter = 0;
  function_counter = 0;
  dynamic_cast_counter = 0;
  typeof_counter = 0;
  target_bash_version = bash_5_3;
  output = fresh;
}

increment_counters-helpers_example :
    ((repeat 2 increment_typeof_counter program).output.code ≡ [] ++ once 2 bpp_typeof_function)
    × ((repeat 2 increment_dynamic_cast_counter program).output.code
        ≡ [] ++ once 2 bpp_dynamic_cast)
    × ((repeat 2 increment_function_counter program).output.code ≡ [] ++ once 2 bpp_vtable_lookup)
    × ((repeat 2 increment_supershell_counter program).output.code
        ≡ [] ++ (if older bash_5_3 bash_5_3 then once 2 bpp_supershell_function else []))
increment_counters-helpers_example =
    increment_counters-helpers 2 program (omega arith) refl refl refl refl

-- `lid.next.next`
abbrev object_of : Text → Option Object
object_of name = some (record { name = name; type = 2; pointer = false; address = name })

abbrev found : EntityReference
found = record {
  entity = datamember_entity 5;
  last_reference_type = ref_object;
  reference_code = record {
    pre_code = lit "local lid__next__next=${lid__next}__next\n";
    code = lit "lid__next__next";
    post_code = lit "unset lid__next__next\n";
  };
  created_first_temporary_variable = true;
  created_second_temporary_variable = true;
  class_containing_the_method = none;
}

reference_found :
    resolve_reference_impl store object_of none true (lit "lid") (lit "next" ∷ lit "next" ∷ [])
    ≡ resolved found
unfolding resolve_reference_impl lit concat contains same_text get_datamember get_method
    get_encased_ref
reference_found = refl

resolve_reference_impl-Balanced_example : Balanced true found.reference_code
resolve_reference_impl-Balanced_example =
    resolve_reference_impl-Balanced store object_of none true (lit "lid")
      (lit "next" ∷ lit "next" ∷ []) found reference_found

resolve_reference_impl-Reaches_example :
    (p : StartingPoint) × (starting_point store object_of none (lit "lid") ≡ resolved p)
    × Reaches store p.current_class p.entity (lit "next" ∷ lit "next" ∷ []) found.entity
resolve_reference_impl-Reaches_example =
    resolve_reference_impl-Reaches store object_of none true (lit "lid")
      (lit "next" ∷ lit "next" ∷ []) found reference_found

-- Class 0 has a member object of class 1, which has no members.
abbrev box_classes : ℕ → Class
box_classes zero = record {
  name = lit "Box";
  methods = [];
  datamembers = 0 ∷ [];
  parents = [];
  has_custom_to_primitive = false;
}
box_classes (suc c) = record {
  name = lit "Lid";
  methods = [];
  datamembers = [];
  parents = [];
  has_custom_to_primitive = false;
}

abbrev box_store : Store
box_store = record {
  method = methods;
  datamember = λ d. member_named (lit "lid") (some 1);
  class_at = box_classes;
  next_method = 9;
}

abbrev box_depth : ℕ → ℕ
box_depth zero = 1
box_depth (suc c) = 0

box_store-IsDepth : IsDepth box_store box_depth
box_store-IsDepth zero = (inr (inr (1, refl, omega arith)), tt)
box_store-IsDepth (suc c) = tt

generate_code_for_new_method-Succeeds_example :
    Succeeds (generate_code_for_new_method 2 box_store true (lit "b") 0 program)
generate_code_for_new_method-Succeeds_example =
    generate_code_for_new_method-Succeeds 2 box_store box_depth true (lit "b") 0 program
      box_store-IsDepth (omega arith)
