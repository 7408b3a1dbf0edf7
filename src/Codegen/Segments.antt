-- ===== src/Codegen/Segments.antt =====
-- The generators of src/bpp_include/bpp_codegen.cpp that need no recursion. Each answers the segment
-- and the program with its counters moved on.
pub mod Fresh
use bashpp.Prelude.{
  ℕ, Bool, false, not, ◌&&◌, [], ◌∷◌, ◌++◌, Option, none, some, if◌then◌else◌, Text, lit, concat,
  is_empty, starts_with, to_string,
}
use bashpp.Classes.Store.{Store}
use bashpp.Classes.Members.{find_method, methods_of}
use bashpp.BashVersion.{at_least}
use bashpp.Codegen.Program.{
  Program, bash_5_3, increment_supershell_counter, increment_function_counter,
  increment_dynamic_cast_counter, increment_typeof_counter,
}

-- `code_segment`
pub record CodeSegment : Type 0 where
  pub pre_code : Text
  pub code : Text
  pub post_code : Text

abbrev pub empty_segment : CodeSegment
empty_segment = record { pre_code = []; code = []; post_code = [] }

abbrev pub newline_after : Text → Text
newline_after s = if is_empty s then [] else lit "\n"

unfoldable pub full_code : CodeSegment → Text
full_code c = concat (
    c.pre_code
    ∷ newline_after c.pre_code
    ∷ c.code
    ∷ (if is_empty c.post_code then [] else lit "\n")
    ∷ c.post_code
    ∷ [])

-- The name of a temporary: a prefix and the value of a counter.
abbrev pub numbered : Text → ℕ → Text
numbered prefix n = prefix ++ to_string n

unfoldable pub generate_supershell_code : Text → Program → CodeSegment × Program
unfolding increment_supershell_counter at_least
generate_supershell_code code_to_run p =
    let function_name = numbered (lit "____supershellRunFunc") p.supershell_counter in
    let output_variable = numbered (lit "____supershellOutput") p.supershell_counter in
    let definition = concat (
      lit "function "
      ∷ function_name
      ∷ lit "() {\n"
      ∷ lit "\t"
      ∷ code_to_run
      ∷ lit "\n"
      ∷ lit "}\n"
      ∷ []) in
    let native : CodeSegment = record {
      pre_code = definition;
      code = concat (lit "${ " ∷ function_name ∷ lit "; }" ∷ []);
      post_code = [];
    } in
    let emulated : CodeSegment = record {
      pre_code = concat (
          definition
          ∷ lit "bpp____supershell "
          ∷ output_variable
          ∷ lit " "
          ∷ function_name
          ∷ lit "\n"
          ∷ []);
      code = concat (lit "${" ∷ output_variable ∷ lit "}" ∷ []);
      post_code = concat (
          lit "unset -f "
          ∷ function_name
          ∷ lit "\n"
          ∷ lit "unset "
          ∷ output_variable
          ∷ lit "\n"
          ∷ []);
    } in
    (
      if at_least p.target_bash_version bash_5_3 then native else emulated,
      increment_supershell_counter p,
    )

unfoldable pub generate_virtual_method_call_code : Text → Text → Program → CodeSegment × Program
unfolding increment_function_counter
generate_virtual_method_call_code reference_code method_name p =
    let func = numbered (lit "__func") p.function_counter in
    (
      record {
        pre_code = concat (
            lit "if bpp____vTable__lookup \""
            ∷ reference_code
            ∷ lit "\" \""
            ∷ method_name
            ∷ lit "\" "
            ∷ func
            ∷ lit "; then\n"
            ∷ []);
        code = concat (lit "\t${!" ∷ func ∷ lit "} " ∷ reference_code ∷ []);
        post_code = concat (lit "\tunset " ∷ func ∷ lit "\nfi\n" ∷ []);
      },
      increment_function_counter p,
    )

-- The name of the class that a method belongs to, or of the class it was looked up in.
abbrev pub containing_class_name : Store → ℕ → ℕ → Text
containing_class_name s assumed_class m = elim (s.method m).containing_class [
  | none ↦ (s.class_at assumed_class).name
  | some c ↦ (s.class_at c).name
]

-- A call of the function that a method is compiled to.
abbrev pub static_call : Text → Text → Text → CodeSegment
static_call class_name method_name reference_code = record {
  pre_code = [];
  code = concat (lit "bpp__" ∷ class_name ∷ lit "__" ∷ method_name ∷ lit " " ∷ reference_code ∷ []);
  post_code = [];
}

-- `none` is the internal error "Method … not found". A system method, whose name begins with `__`, is
-- assumed to exist and to be virtual.
unfoldable pub generate_method_call_code :
    Store → Text → Text → ℕ → Bool → Program → Option (CodeSegment × Program)
unfolding generate_virtual_method_call_code
generate_method_call_code s reference_code method_name assumed_class force_static_reference p =
    let own_name = (s.class_at assumed_class).name in
    let dispatched = generate_virtual_method_call_code reference_code method_name p in
    elim (find_method s method_name (methods_of s assumed_class)) [
      | none ↦
          if starts_with (lit "__") method_name
          then some (
              if not force_static_reference
              then dispatched
              else (static_call own_name method_name reference_code, p))
          else none
      | some m ↦ some (
          if (s.method m).virtual && not force_static_reference then dispatched else (
            static_call (containing_class_name s assumed_class m) method_name reference_code,
            p,
          ))
    ]

unfoldable pub generate_constructor_call_code : Store → Text → ℕ → CodeSegment
generate_constructor_call_code s reference_code assumed_class =
    elim (find_method s (lit "__constructor") (methods_of s assumed_class)) [
      | none ↦ empty_segment
      | some m ↦ record {
        pre_code = [];
        code = concat (
            lit "bpp__"
            ∷ containing_class_name s assumed_class m
            ∷ lit "____constructor "
            ∷ reference_code
            ∷ lit "\n"
            ∷ []);
        post_code = [];
      }
    ]

unfoldable pub generate_destructor_call_code :
    Store → Text → ℕ → Bool → Program → CodeSegment × Program
unfolding generate_virtual_method_call_code
generate_destructor_call_code s reference_code assumed_class force_static_reference p =
    elim (find_method s (lit "__destructor") (methods_of s assumed_class)) [
      | none ↦ (empty_segment, p)
      | some m ↦
          if not force_static_reference
          then generate_virtual_method_call_code reference_code (lit "__destructor") p
          else (
            static_call (containing_class_name s assumed_class m) (lit "__destructor")
                reference_code,
            p,
          )
    ]

unfoldable pub generate_delete_code : Store → ℕ → Text → Program → Option (CodeSegment × Program)
unfolding generate_destructor_call_code generate_method_call_code full_code
generate_delete_code s object_class object_ref p =
    let (destructor, p') = generate_destructor_call_code s object_ref object_class false p in
    elim (generate_method_call_code s object_ref (lit "__delete") object_class false p') [
      | none ↦ none
      | some (deletion, p'') ↦ some (
        record {
          pre_code = concat (full_code destructor ∷ lit "\n" ∷ full_code deletion ∷ lit "\n" ∷ []);
          code = [];
          post_code = [];
        },
        p'',
      )
    ]

unfoldable pub generate_dynamic_cast_code : Text → Text → Program → CodeSegment × Program
unfolding increment_dynamic_cast_counter
generate_dynamic_cast_code reference_code class_name p =
    let variable = numbered (lit "__dynamicCast") p.dynamic_cast_counter in
    (
      record {
        pre_code = concat (
            lit "bpp____dynamic__cast \""
            ∷ class_name
            ∷ lit "\" \""
            ∷ variable
            ∷ lit "\" "
            ∷ reference_code
            ∷ lit "\n"
            ∷ []);
        code = concat (lit "${" ∷ variable ∷ lit "}" ∷ []);
        post_code = concat (lit "unset " ∷ variable ∷ lit "\n" ∷ []);
      },
      increment_dynamic_cast_counter p,
    )

unfoldable pub generate_typeof_code : Text → Program → CodeSegment × Program
unfolding increment_typeof_counter
generate_typeof_code reference_code p =
    let variable = numbered (lit "__typeof") p.typeof_counter in
    (
      record {
        pre_code =
            concat (lit "bpp____typeof " ∷ reference_code ∷ lit " " ∷ variable ∷ lit "\n" ∷ []);
        code = concat (lit "${" ∷ variable ∷ lit "}" ∷ []);
        post_code = concat (lit "unset " ∷ variable ∷ lit "\n" ∷ []);
      },
      increment_typeof_counter p,
    )
