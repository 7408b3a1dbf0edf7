-- ===== src/Listener/Walk/Enter.antt =====
-- What each `enter` handler does to the entity stack.
use bashpp.Prelude.{
  ℕ, Bool, List, [], ◌∷◌, ◌==◌, ◌||◌, lit, ◌≡◌, refl, sym, ◌∙◌, ap, Text, if◌then◌else◌, Bool-cases,
  Option-cases, inl, inr,
}
use bashpp.EntityMap.{FilePosition}
use bashpp.Listener.{
  Listener, Entity, Kind, top, new_entity, class_entity, is_code_entity, seen_class,
}
use bashpp.Listener.Conditionals.{open_branch, enter_loop}
use bashpp.Listener.Blocks.{is_larger_construct}
use bashpp.Listener.Strings.{is_blank}
use bashpp.Listener.Expressions.{construct_new}
use bashpp.Entities.{Named}
use bashpp.Classes.Members.{find_method, methods_of}
use bashpp.Listener.Methods.Lifetime.{enter_destructor_definition}
use bashpp.Listener.Walk.Declared.{instantiation-Leaves, pointer-Leaves}
use bashpp.Listener.Walk.Referred.{reference-Leaves}
use bashpp.Listener.Walk.Members.{
  class-Leaves, method-Leaves, constructor-Leaves, datamember-Leaves,
}
use bashpp.Listener.Walk.Handlers.{
  class_definition, method_definition, constructor_definition, destructor_definition,
  datamember_declaration, object_instantiation, pointer_declaration, an_object_reference, NodeType,
  enter_node, plain_node, if_statement, if_root_branch, if_condition, while_statement,
  until_statement, while_or_until_condition, in_condition, arithmetic_for, arithmetic_for_condition,
  case_statement, a_case_pattern, case_pattern_header, block, raw_subshell, supershell, pipeline,
  a_command_sequence, doublequoted_string, here_string, test_condition_command,
  arithmetic_substitution, array_assignment, array_index, typeof_expression, a_dynamic_cast,
  an_object_assignment, if_else_branch, subshell_substitution, connective, for_statement,
  select_statement, a_bash_function, process_substitution, native_supershell, redirection, raw_text,
  heredoc_body, bash_variable, parameter_expansion, a_value_assignment, new_statement,
  primitive_assignment, a_delete_statement, dynamic_cast_target,
}
use bashpp.Listener.Conditionals.{
  enter_bash_if_statement, enter_bash_if_root_branch, enter_bash_if_else_branch,
  enter_bash_if_condition, enter_bash_while_statement, enter_bash_until_statement,
  enter_bash_while_or_until_condition,
}
use bashpp.Listener.Headers.{
  enter_bash_for_statement, enter_bash_select_statement, enter_bash_in_condition,
  enter_bash_arithmetic_for_statement, enter_bash_arithmetic_for_condition,
  enter_bash_case_statement, enter_bash_case_pattern, enter_bash_case_pattern_header,
}
use bashpp.Listener.Blocks.{
  enter_block, enter_bash_function, enter_subshell_substitution, enter_raw_subshell,
  enter_process_substitution, enter_bash_53_native_supershell, enter_supershell,
}
use bashpp.Listener.Strings.{
  enter_bash_pipeline, enter_bash_command_sequence, enter_connective, enter_bash_redirection,
  enter_raw_text, enter_doublequoted_string, enter_here_string, enter_heredoc_body,
  enter_bash_test_condition_command, enter_bash_arithmetic_substitution, enter_bash_variable,
  enter_primitive_assignment, enter_parameter_expansion,
}
use bashpp.Listener.Expressions.{
  enter_array_assignment, enter_array_index, enter_typeof_expression, enter_dynamic_cast,
  enter_dynamic_cast_target, enter_new_statement,
}
use bashpp.Listener.Values.{enter_value_assignment}
use bashpp.Listener.Assignments.{enter_delete_statement, enter_object_assignment}
use bashpp.Listener.Walk.Stack.{
  shape, shapes, refusing-Leaves, Leaves, asserting-Leaves, in_code_entity-Leaves, write-shapes,
  previous-shapes, next-shapes, write_around-shapes, on_kind-shapes, on_branches-SameShape,
  set_condition-SameShape, on_sequence-SameShape,
}

-- The class on top of a stack of classes; at the bottom is the program.
unfoldable pub head_shape : List ℕ → ℕ
head_shape [] = 0
head_shape (k ∷ ks) = k

-- A class, a method, a function, and a for or select statement.
unfoldable pub is_larger_shape : ℕ → Bool
is_larger_shape k = (k == 1) || ((k == 9) || ((k == 12) || (k == 15)))

open_branch-Leaves :
    (word : Text) (begin : FilePosition) (l : Listener)
    → Leaves (6 ∷ shapes l) (shapes l) (open_branch word begin l)
unfolding open_branch Leaves shape new_entity
open_branch-Leaves word begin l =
    asserting-Leaves _ _ _ _ _ _ (ap (λ ks. 6 ∷ ks) (on_kind-shapes _ l (on_branches-SameShape _)))

-- The stack's classes once a node has been entered.
unfoldable pub opens : NodeType → List ℕ → List ℕ
unfolding head_shape is_larger_shape
opens plain_node ks = ks
opens if_statement ks = 10 ∷ ks
opens if_root_branch ks = 6 ∷ ks
opens (if_else_branch has_condition) ks = 6 ∷ ks
opens while_statement ks = 11 ∷ ks
opens until_statement ks = 11 ∷ ks
opens while_or_until_condition ks = 7 ∷ ks
opens (for_statement variable) ks = 12 ∷ ks
opens (select_statement variable) ks = 12 ∷ ks
opens arithmetic_for ks = 12 ∷ ks
opens case_statement ks = 13 ∷ ks
opens a_case_pattern ks = 14 ∷ ks
opens block ks = if is_larger_shape (head_shape ks) then ks else 4 ∷ ks
opens (a_bash_function name) ks = 15 ∷ ks
opens a_command_sequence ks = 16 ∷ ks
opens (connective is_and) ks = ks
opens (redirection operator) ks = ks
opens (raw_text text) ks = ks
opens (parameter_expansion text) ks = ks
opens a_dynamic_cast ks = 17 ∷ ks
opens (dynamic_cast_target target) ks = 8 ∷ ks
opens (new_statement class_name position) ks = ks
opens (a_value_assignment operator) ks = 20 ∷ ks
opens (a_delete_statement reference) ks = 19 ∷ ks
opens an_object_assignment ks = 21 ∷ ks
opens (class_definition name position parent) ks = 1 ∷ ks
opens (method_definition name position scope virtual parameters) ks = 9 ∷ ks
opens constructor_definition ks = 9 ∷ ks
opens destructor_definition ks = 9 ∷ ks
opens (datamember_declaration scope identifier) ks = 3 ∷ ks
opens (an_object_reference q) ks = 18 ∷ ks
opens (object_instantiation type at name position) ks = 2 ∷ ks
opens (pointer_declaration type at name position) ks = 2 ∷ ks
opens _ ks = 5 ∷ ks

raw_text-Leaves :
    (text : Text) (l : Listener) → Leaves (shapes l) (shapes l) (enter_raw_text text l)
unfolding enter_raw_text Leaves
raw_text-Leaves text l = elim (Bool-cases (is_code_entity (top l).kind)) [
  | inl t ↦ rw t (write-shapes _ _ l)
  | inr t ↦ elim (Bool-cases (is_blank text)) [
    | inl b ↦ rw t (rw b refl)
    | inr b ↦ rw t (rw b refl)
  ]
]

larger_shape : (k : Kind) → is_larger_construct k ≡ is_larger_shape (shape k)
unfolding is_larger_construct is_larger_shape shape
larger_shape (class_entity c) = refl
larger_shape _ = refl

shape-top :
    (l : Listener) (es : List Entity) → l.stack ≡ es → shape (top l).kind ≡ head_shape (shapes l)
unfolding top head_shape shape
shape-top l [] h = rw h refl
shape-top l (e ∷ es) h = rw h refl

pub larger_top :
    (l : Listener) → is_larger_construct (top l).kind ≡ is_larger_shape (head_shape (shapes l))
larger_top l = larger_shape (top l).kind ∙ ap is_larger_shape (shape-top l l.stack refl)

block-Leaves :
    (begin : FilePosition) (l : Listener)
    → Leaves (opens block (shapes l)) (shapes l) (enter_block begin l)
unfolding opens enter_block Leaves new_entity shape
block-Leaves begin l = elim (Bool-cases (is_larger_construct (top l).kind)) [
  | inl t ↦ rw (sym (larger_top l)) (rw (t, Leaves) (rw t refl))
  | inr t ↦ rw (sym (larger_top l)) (
      rw t (
        rw (t, Leaves)
          (in_code_entity-Leaves _ _ _ _ _ refl (ap (λ ks. 4 ∷ ks) (write-shapes _ _ l)))))
]

construct_new-shapes :
    (variable : Text) (c : Named) (l : Listener) → shapes (construct_new variable c l) ≡ shapes l
construct_new-shapes variable c l =
    elim (Option-cases (find_method l.store (lit "__constructor") (methods_of l.store c.id))) [
      | inl n ↦ rw (n, construct_new) refl
      | inr (m, n) ↦ rw (n, construct_new) (previous-shapes _ l)
    ]

new-Leaves :
    (class_name : Text) (position : FilePosition) (l : Listener)
    → Leaves (shapes l) (shapes l) (enter_new_statement class_name position l)
unfolding enter_new_statement Leaves
new-Leaves class_name position l =
    in_code_entity-Leaves _ _ _ _ _ refl (elim (Option-cases (seen_class class_name l)) [
      | inl n ↦ rw (n, Leaves) refl
      | inr (c, n) ↦
          rw (n, Leaves)
            (write-shapes _ _ _
              ∙ next-shapes _ _
              ∙ construct_new-shapes _ c _
              ∙ write_around-shapes _ _ _
              ∙ previous-shapes _ _)
    ])

pub enter-Leaves :
    (t : NodeType) (begin : FilePosition) (l : Listener)
    → Leaves (opens t (shapes l)) (shapes l) (enter_node t begin l)
unfolding enter_node opens Leaves shape new_entity enter_loop enter_bash_if_statement
    enter_bash_if_root_branch enter_bash_if_else_branch enter_bash_if_condition
    enter_bash_while_statement enter_bash_until_statement enter_bash_while_or_until_condition
    enter_bash_for_statement enter_bash_select_statement enter_bash_in_condition
    enter_bash_arithmetic_for_statement enter_bash_arithmetic_for_condition
    enter_bash_case_statement enter_bash_case_pattern enter_bash_case_pattern_header enter_block
    enter_bash_function enter_subshell_substitution enter_raw_subshell enter_process_substitution
    enter_bash_53_native_supershell enter_supershell enter_bash_pipeline enter_bash_command_sequence
    enter_connective enter_bash_redirection enter_raw_text enter_doublequoted_string
    enter_here_string enter_heredoc_body enter_bash_test_condition_command
    enter_bash_arithmetic_substitution enter_bash_variable enter_primitive_assignment
    enter_parameter_expansion enter_array_assignment enter_array_index enter_typeof_expression
    enter_dynamic_cast enter_dynamic_cast_target enter_new_statement enter_value_assignment
    enter_delete_statement enter_object_assignment enter_destructor_definition
enter-Leaves plain_node begin l = refl
enter-Leaves if_statement begin l = in_code_entity-Leaves _ _ _ _ _ refl refl
enter-Leaves if_root_branch begin l = open_branch-Leaves _ begin l
enter-Leaves (if_else_branch has_condition) begin l = open_branch-Leaves _ begin l
enter-Leaves if_condition begin l = asserting-Leaves _ _ _ _ _ _ refl
enter-Leaves in_condition begin l = asserting-Leaves _ _ _ _ _ _ refl
enter-Leaves arithmetic_for_condition begin l = asserting-Leaves _ _ _ _ _ _ refl
enter-Leaves a_case_pattern begin l = asserting-Leaves _ _ _ _ _ _ refl
enter-Leaves case_pattern_header begin l = asserting-Leaves _ _ _ _ _ _ refl
enter-Leaves array_index begin l = asserting-Leaves _ _ _ _ _ _ refl
enter-Leaves (dynamic_cast_target target) begin l = asserting-Leaves _ _ _ _ _ _ refl
enter-Leaves while_statement begin l = in_code_entity-Leaves _ _ _ _ _ refl refl
enter-Leaves until_statement begin l = in_code_entity-Leaves _ _ _ _ _ refl refl
enter-Leaves (for_statement variable) begin l = in_code_entity-Leaves _ _ _ _ _ refl refl
enter-Leaves (select_statement variable) begin l = in_code_entity-Leaves _ _ _ _ _ refl refl
enter-Leaves arithmetic_for begin l = in_code_entity-Leaves _ _ _ _ _ refl refl
enter-Leaves case_statement begin l = in_code_entity-Leaves _ _ _ _ _ refl refl
enter-Leaves (a_bash_function name) begin l = in_code_entity-Leaves _ _ _ _ _ refl refl
enter-Leaves (subshell_substitution is_cat) begin l = in_code_entity-Leaves _ _ _ _ _ refl refl
enter-Leaves (native_supershell start) begin l = in_code_entity-Leaves _ _ _ _ _ refl refl
enter-Leaves supershell begin l = in_code_entity-Leaves _ _ _ _ _ refl refl
enter-Leaves pipeline begin l = in_code_entity-Leaves _ _ _ _ _ refl refl
enter-Leaves a_command_sequence begin l = in_code_entity-Leaves _ _ _ _ _ refl refl
enter-Leaves here_string begin l = in_code_entity-Leaves _ _ _ _ _ refl refl
enter-Leaves (heredoc_body delimiter) begin l = in_code_entity-Leaves _ _ _ _ _ refl refl
enter-Leaves arithmetic_substitution begin l = in_code_entity-Leaves _ _ _ _ _ refl refl
enter-Leaves (bash_variable text) begin l = in_code_entity-Leaves _ _ _ _ _ refl refl
enter-Leaves (primitive_assignment is_local identifier) begin l =
    in_code_entity-Leaves _ _ _ _ _ refl refl
enter-Leaves array_assignment begin l = in_code_entity-Leaves _ _ _ _ _ refl refl
enter-Leaves typeof_expression begin l = in_code_entity-Leaves _ _ _ _ _ refl refl
enter-Leaves a_dynamic_cast begin l = in_code_entity-Leaves _ _ _ _ _ refl refl
enter-Leaves raw_subshell begin l =
    in_code_entity-Leaves _ _ _ _ _ refl (ap (λ ks. 5 ∷ ks) (write-shapes _ _ l))
enter-Leaves (process_substitution start) begin l =
    in_code_entity-Leaves _ _ _ _ _ refl (ap (λ ks. 5 ∷ ks) (write-shapes _ _ l))
enter-Leaves doublequoted_string begin l =
    in_code_entity-Leaves _ _ _ _ _ refl (ap (λ ks. 5 ∷ ks) (write-shapes _ _ l))
enter-Leaves test_condition_command begin l =
    in_code_entity-Leaves _ _ _ _ _ refl (ap (λ ks. 5 ∷ ks) (write-shapes _ _ l))
enter-Leaves (a_value_assignment operator) begin l = refl
enter-Leaves (a_delete_statement reference) begin l = refl
enter-Leaves an_object_assignment begin l = refl
enter-Leaves (redirection operator) begin l =
    in_code_entity-Leaves _ _ _ _ _ refl (write-shapes _ _ l)
enter-Leaves (parameter_expansion text) begin l = asserting-Leaves _ _ _ _ _ _ (write-shapes _ _ l)
enter-Leaves (connective is_and) begin l =
    asserting-Leaves _ _ _ _ _ _ (on_kind-shapes _ l (on_sequence-SameShape _))
enter-Leaves while_or_until_condition begin l =
    asserting-Leaves _ _ _ _ _ _
      (ap (λ ks. 7 ∷ ks) (on_kind-shapes _ l (set_condition-SameShape _)))
enter-Leaves (raw_text text) begin l = raw_text-Leaves text l
enter-Leaves block begin l = block-Leaves begin l
enter-Leaves (new_statement class_name position) begin l = new-Leaves class_name position l
enter-Leaves (class_definition name position parent) begin l = class-Leaves name position parent l
enter-Leaves (method_definition name position scope virtual parameters) begin l =
    method-Leaves name position scope virtual parameters l
enter-Leaves constructor_definition begin l = constructor-Leaves begin l
enter-Leaves destructor_definition begin l = refusing-Leaves _ _ _ _ _ _ refl refl
enter-Leaves (datamember_declaration scope identifier) begin l =
    datamember-Leaves scope identifier l
enter-Leaves (object_instantiation type at name position) begin l =
    instantiation-Leaves type at name position l
enter-Leaves (pointer_declaration type at name position) begin l =
    pointer-Leaves type at name position l
enter-Leaves (an_object_reference q) begin l = reference-Leaves l
