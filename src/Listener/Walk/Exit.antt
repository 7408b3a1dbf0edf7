-- ===== src/Listener/Walk/Exit.antt =====
-- What each `exit` handler does to the entity stack.
use bashpp.Prelude.{ℕ, List, ◌≡◌, refl, ◌∙◌}
use bashpp.EntityMap.{FilePosition}
use bashpp.Listener.{Listener}
use bashpp.Listener.Walk.Handlers.{
  NodeType, exit_node, plain_node, if_statement, if_root_branch, if_condition, while_statement,
  until_statement, while_or_until_condition, in_condition, arithmetic_for, arithmetic_for_condition,
  case_statement, a_case_pattern, case_pattern_header, block, raw_subshell, supershell, pipeline,
  a_command_sequence, doublequoted_string, here_string, test_condition_command,
  arithmetic_substitution, array_assignment, array_index, typeof_expression, a_dynamic_cast,
  an_object_assignment, if_else_branch, subshell_substitution, connective, for_statement,
  select_statement, a_bash_function, process_substitution, native_supershell, redirection, raw_text,
  heredoc_body, bash_variable, parameter_expansion, a_value_assignment, new_statement,
  primitive_assignment, a_delete_statement, dynamic_cast_target, class_definition,
  object_instantiation, an_object_reference, pointer_declaration, method_definition,
  constructor_definition, destructor_definition, datamember_declaration,
}
use bashpp.Listener.Conditionals.{
  exit_bash_if_statement, exit_bash_if_root_branch, exit_bash_if_else_branch,
  exit_bash_if_condition, exit_bash_while_statement, exit_bash_until_statement,
  exit_bash_while_or_until_condition,
}
use bashpp.Listener.Headers.{
  exit_bash_for_statement, exit_bash_select_statement, exit_bash_in_condition,
  exit_bash_arithmetic_for_statement, exit_bash_arithmetic_for_condition, exit_bash_case_statement,
  exit_bash_case_pattern, exit_bash_case_pattern_header,
}
use bashpp.Listener.Blocks.{
  exit_bash_function, exit_raw_subshell, exit_process_substitution, exit_bash_53_native_supershell,
}
use bashpp.Listener.Strings.{
  exit_bash_pipeline, exit_bash_command_sequence, exit_doublequoted_string, exit_here_string,
  exit_heredoc_body, exit_bash_test_condition_command, exit_bash_arithmetic_substitution,
  exit_bash_variable, exit_primitive_assignment,
}
use bashpp.Listener.Expressions.{exit_array_assignment, exit_typeof_expression}
use bashpp.Listener.Walk.Declared.{exit_instantiation-Keeps, exit_pointer-Keeps}
use bashpp.Listener.Walk.Referred.{exit_reference-Keeps}
use bashpp.Listener.Walk.Stack.{
  mark-shapes, shapes, Leaves, Keeps, popping-Keeps, asserting-Leaves, in_code_entity-Leaves,
  on_code_entity-Keeps, on_any_entity-Keeps, destruct-Keeps, write-shapes, previous-shapes,
  next-shapes, write_around-shapes, on_kind-shapes, set_condition-SameShape, set_header-SameShape,
  add_case-SameShape, set_pattern-SameShape, assign_array-SameShape,
}
use bashpp.Listener.Walk.Enter.{opens}
use bashpp.Listener.Walk.LeftStatements.{
  write_branches-shapes, write_out-shapes, if_statement_shapes, close_branch-Keeps, exit_loop-Keeps,
  write_segment-shapes, quoted-Keeps, mark_between-shapes, around_below-shapes, adopt-Keeps,
  exit_block-Keeps, exit_subshell-Keeps, exit_supershell-Keeps, exit_array_index-Keeps,
  exit_dynamic_cast-Keeps, exit_dynamic_cast_target-Keeps,
}
use bashpp.Listener.Walk.LeftAssignments.{exit_value-Keeps, exit_delete-Keeps, exit_object-Keeps}
use bashpp.Listener.Walk.LeftMembers.{
  exit_class-Keeps, exit_datamember-Keeps, exit_method-Keeps, exit_constructor-Keeps,
  exit_destructor-Keeps,
}

pub exit-Keeps :
    (t : NodeType) (begin end : FilePosition) (l : Listener) (ks : List ℕ)
    → shapes l ≡ opens t ks
    → Keeps ks (exit_node t begin end l)
unfolding exit_node opens Leaves exit_bash_if_statement exit_bash_if_root_branch
    exit_bash_if_else_branch exit_bash_if_condition exit_bash_while_statement
    exit_bash_until_statement exit_bash_while_or_until_condition exit_bash_for_statement
    exit_bash_select_statement exit_bash_in_condition exit_bash_arithmetic_for_statement
    exit_bash_arithmetic_for_condition exit_bash_case_statement exit_bash_case_pattern
    exit_bash_case_pattern_header exit_bash_function exit_raw_subshell exit_process_substitution
    exit_bash_53_native_supershell exit_bash_pipeline exit_bash_command_sequence
    exit_doublequoted_string exit_here_string exit_heredoc_body exit_bash_test_condition_command
    exit_bash_arithmetic_substitution exit_bash_variable exit_primitive_assignment
    exit_array_assignment exit_typeof_expression
exit-Keeps plain_node begin end l ks s = s
exit-Keeps (connective is_and) begin end l ks s = s
exit-Keeps (redirection operator) begin end l ks s = s
exit-Keeps (raw_text text) begin end l ks s = s
exit-Keeps (parameter_expansion text) begin end l ks s = s
exit-Keeps (new_statement class_name position) begin end l ks s = s
exit-Keeps if_statement begin end l ks s =
    popping-Keeps _ _ _ _ s λ e l' x s'.
      on_code_entity-Keeps _ _ _ _ (write-shapes _ _ _ ∙ write_branches-shapes _ l' ∙ s')
exit-Keeps if_root_branch begin end l ks s = close_branch-Keeps _ end l ks s
exit-Keeps (if_else_branch has_condition) begin end l ks s = close_branch-Keeps _ end l ks s
exit-Keeps if_condition begin end l ks s =
    popping-Keeps _ _ _ _ s
      λ e l' x s'. asserting-Leaves _ _ _ _ _ _ (if_statement_shapes _ l' l'.stack refl ∙ s')
exit-Keeps while_statement begin end l ks s = exit_loop-Keeps _ _ end l ks s
exit-Keeps until_statement begin end l ks s = exit_loop-Keeps _ _ end l ks s
exit-Keeps while_or_until_condition begin end l ks s =
    popping-Keeps _ _ _ _ s λ e l' x s'. on_kind-shapes _ l' (set_condition-SameShape _) ∙ s'
exit-Keeps (for_statement variable) begin end l ks s = popping-Keeps _ _ _ _ s λ e l' x s'.
    on_code_entity-Keeps _ _ _ _ (
      destruct-Keeps _ _ _ _ s' λ e' l'' s''.
        mark-shapes _ _ _
        ∙ write-shapes _ _ _
        ∙ write-shapes _ _ _
        ∙ write-shapes _ _ _
        ∙ write_around-shapes _ _ _
        ∙ s'')
exit-Keeps (select_statement variable) begin end l ks s = popping-Keeps _ _ _ _ s λ e l' x s'.
    on_code_entity-Keeps _ _ _ _ (
      destruct-Keeps _ _ _ _ s' λ e' l'' s''.
        mark-shapes _ _ _
        ∙ write-shapes _ _ _
        ∙ write-shapes _ _ _
        ∙ write-shapes _ _ _
        ∙ write_around-shapes _ _ _
        ∙ s'')
exit-Keeps in_condition begin end l ks s =
    popping-Keeps _ _ _ _ s
      λ e l' x s'. asserting-Leaves _ _ _ _ _ _ (on_kind-shapes _ l' (set_header-SameShape _) ∙ s')
exit-Keeps arithmetic_for_condition begin end l ks s =
    popping-Keeps _ _ _ _ s
      λ e l' x s'. asserting-Leaves _ _ _ _ _ _ (on_kind-shapes _ l' (set_header-SameShape _) ∙ s')
exit-Keeps arithmetic_for begin end l ks s = popping-Keeps _ _ _ _ s λ e l' x s'.
    on_code_entity-Keeps _ _ _ _ (
      mark_between-shapes _ _ _ _
      ∙ write-shapes _ _ _
      ∙ previous-shapes _ _
      ∙ next-shapes _ _
      ∙ write_around-shapes _ _ _
      ∙ s')
exit-Keeps case_statement begin end l ks s =
    popping-Keeps _ _ _ _ s λ e l' x s'.
      on_code_entity-Keeps _ _ _ _ (write-shapes _ _ _ ∙ write_around-shapes _ _ _ ∙ s')
exit-Keeps a_case_pattern begin end l ks s = popping-Keeps _ _ _ _ s λ e l' x s'.
    asserting-Leaves _ _ _ _ _ _ (
      destruct-Keeps _ _ _ _ s'
        λ e' l'' s''. mark-shapes _ _ _ ∙ on_kind-shapes _ l'' (add_case-SameShape _) ∙ s'')
exit-Keeps case_pattern_header begin end l ks s = popping-Keeps _ _ _ _ s λ e l' x s'.
    asserting-Leaves _ _ _ _ _ _
      (on_kind-shapes _ _ (set_pattern-SameShape _) ∙ around_below-shapes _ _ l' ∙ s')
exit-Keeps block begin end l ks s = exit_block-Keeps l ks s
exit-Keeps (a_bash_function name) begin end l ks s = popping-Keeps _ _ _ _ s λ e l' x s'.
    on_code_entity-Keeps _ _ _ _ (
      destruct-Keeps _ _ _ _ s' λ e' l'' s''.
        mark-shapes end _ _ ∙ write-shapes _ _ _ ∙ write-shapes _ _ _ ∙ previous-shapes _ _ ∙ s'')
exit-Keeps (subshell_substitution is_cat) begin end l ks s = exit_subshell-Keeps is_cat end l ks s
exit-Keeps raw_subshell begin end l ks s = popping-Keeps _ _ _ _ s λ e l' x s'.
    on_code_entity-Keeps _ _ _ _ (
      destruct-Keeps _ _ _ _ s'
        λ e' l'' s''. mark-shapes _ _ _ ∙ write-shapes _ _ _ ∙ write_out-shapes _ _ ∙ s'')
exit-Keeps (process_substitution start) begin end l ks s = popping-Keeps _ _ _ _ s λ e l' x s'.
    in_code_entity-Leaves _ _ _ _ _ s'
      (destruct-Keeps _ _ _ _ s' λ e' l'' s''. write-shapes _ _ _ ∙ write_out-shapes _ _ ∙ s'')
exit-Keeps (native_supershell start) begin end l ks s = popping-Keeps _ _ _ _ s λ e l' x s'.
    on_any_entity-Keeps _ _ _
      (mark-shapes _ _ _ ∙ write-shapes _ _ _ ∙ write_around-shapes _ _ _ ∙ s')
exit-Keeps supershell begin end l ks s = exit_supershell-Keeps end l ks s
exit-Keeps pipeline begin end l ks s = popping-Keeps _ _ _ _ s λ e l' x s'.
    on_code_entity-Keeps _ _ _ _
      (adopt-Keeps _ _ _ (write-shapes _ _ _ ∙ write_around-shapes _ _ _ ∙ s'))
exit-Keeps a_command_sequence begin end l ks s = popping-Keeps _ _ _ _ s λ e l' x s'.
    on_code_entity-Keeps _ _ _ _
      (adopt-Keeps _ _ _ (write-shapes _ _ _ ∙ write_around-shapes _ _ _ ∙ s'))
exit-Keeps here_string begin end l ks s =
    popping-Keeps _ _ _ _ s λ e l' x s'.
      on_code_entity-Keeps _ _ _ _ (write-shapes _ _ _ ∙ write_around-shapes _ _ _ ∙ s')
exit-Keeps (heredoc_body delimiter) begin end l ks s =
    popping-Keeps _ _ _ _ s λ e l' x s'.
      on_code_entity-Keeps _ _ _ _ (write-shapes _ _ _ ∙ write_around-shapes _ _ _ ∙ s')
exit-Keeps (bash_variable text) begin end l ks s =
    popping-Keeps _ _ _ _ s λ e l' x s'.
      on_code_entity-Keeps _ _ _ _ (write-shapes _ _ _ ∙ write_around-shapes _ _ _ ∙ s')
exit-Keeps (primitive_assignment is_local identifier) begin end l ks s =
    popping-Keeps _ _ _ _ s λ e l' x s'.
      on_code_entity-Keeps _ _ _ _ (write-shapes _ _ _ ∙ write_around-shapes _ _ _ ∙ s')
exit-Keeps doublequoted_string begin end l ks s =
    popping-Keeps _ _ _ _ s
      λ e l' x s'. quoted-Keeps l' _ _ ks (write-shapes _ _ _ ∙ write_around-shapes _ _ _ ∙ s') s'
exit-Keeps test_condition_command begin end l ks s =
    popping-Keeps _ _ _ _ s
      λ e l' x s'. quoted-Keeps l' _ _ ks (write-shapes _ _ _ ∙ write_around-shapes _ _ _ ∙ s') s'
exit-Keeps arithmetic_substitution begin end l ks s =
    popping-Keeps _ _ _ _ s
      λ e l' x s'. on_any_entity-Keeps _ _ _ (write-shapes _ _ _ ∙ write_around-shapes _ _ _ ∙ s')
exit-Keeps array_assignment begin end l ks s = popping-Keeps _ _ _ _ s λ e l' x s'.
    on_any_entity-Keeps _ _ _ (
      mark-shapes _ _ _
      ∙ write-shapes _ _ _
      ∙ write_around-shapes _ _ _
      ∙ on_kind-shapes _ l' assign_array-SameShape
      ∙ s')
exit-Keeps array_index begin end l ks s = exit_array_index-Keeps l ks s
exit-Keeps typeof_expression begin end l ks s =
    popping-Keeps _ _ _ _ s
      λ e l' x s'. on_code_entity-Keeps _ _ _ _ (write_segment-shapes _ _ _ ∙ s')
exit-Keeps a_dynamic_cast begin end l ks s = exit_dynamic_cast-Keeps l ks s
exit-Keeps (dynamic_cast_target target) begin end l ks s =
    exit_dynamic_cast_target-Keeps target l ks s
exit-Keeps (a_value_assignment operator) begin end l ks s = exit_value-Keeps operator l ks s
exit-Keeps (a_delete_statement reference) begin end l ks s = exit_delete-Keeps reference l ks s
exit-Keeps an_object_assignment begin end l ks s = exit_object-Keeps l ks s
exit-Keeps (class_definition name position parent) begin end l ks s = exit_class-Keeps end l ks s
exit-Keeps (method_definition name position scope virtual parameters) begin end l ks s =
    exit_method-Keeps end l ks s
exit-Keeps constructor_definition begin end l ks s = exit_constructor-Keeps end l ks s
exit-Keeps destructor_definition begin end l ks s = exit_destructor-Keeps end l ks s
exit-Keeps (datamember_declaration scope identifier) begin end l ks s = exit_datamember-Keeps l ks s
exit-Keeps (object_instantiation type at name position) begin end l ks s =
    exit_instantiation-Keeps l ks s
exit-Keeps (pointer_declaration type at name position) begin end l ks s = exit_pointer-Keeps l ks s
exit-Keeps (an_object_reference q) begin end l ks s = exit_reference-Keeps q l ks s
