-- ===== src/Listener/Walk/Handlers.antt =====
-- The nodes of the syntax tree that have a handler in src/listener/handlers, and which handlers these are:
-- `AST_LISTENER_NODE_LIST` of src/AST/Listener/BaseListener.h.
use bashpp.Prelude.{Bool, List, Option, Text}
use bashpp.EntityMap.{FilePosition}
use bashpp.Classes.Store.{Scope}
use bashpp.Listener.Classes.{
  enter_class_definition, exit_class_definition, enter_datamember_declaration,
  exit_datamember_declaration,
}
use bashpp.Listener.Declarations.{
  enter_object_instantiation, exit_object_instantiation, enter_pointer_declaration,
  exit_pointer_declaration,
}
use bashpp.Listener.References.{Reference}
use bashpp.Listener.References.Exit.{enter_object_reference, exit_object_reference}
use bashpp.Listener.Methods.{Parameter, enter_method_definition, exit_method_definition}
use bashpp.Listener.Methods.Lifetime.{
  enter_constructor_definition, exit_constructor_definition, enter_destructor_definition,
  exit_destructor_definition,
}
use bashpp.Listener.{Listener, Outcome, done}
use bashpp.Listener.Conditionals.{
  enter_bash_if_statement, exit_bash_if_statement, enter_bash_if_root_branch,
  exit_bash_if_root_branch, enter_bash_if_else_branch, exit_bash_if_else_branch,
  enter_bash_if_condition, exit_bash_if_condition, enter_bash_while_statement,
  exit_bash_while_statement, enter_bash_until_statement, exit_bash_until_statement,
  enter_bash_while_or_until_condition, exit_bash_while_or_until_condition,
}
use bashpp.Listener.Headers.{
  enter_bash_for_statement, exit_bash_for_statement, enter_bash_select_statement,
  exit_bash_select_statement, enter_bash_in_condition, exit_bash_in_condition,
  enter_bash_arithmetic_for_statement, exit_bash_arithmetic_for_statement,
  enter_bash_arithmetic_for_condition, exit_bash_arithmetic_for_condition,
  enter_bash_case_statement, exit_bash_case_statement, enter_bash_case_pattern,
  exit_bash_case_pattern, enter_bash_case_pattern_header, exit_bash_case_pattern_header,
}
use bashpp.Listener.Blocks.{
  enter_block, exit_block, enter_bash_function, exit_bash_function, enter_subshell_substitution,
  exit_subshell_substitution, enter_raw_subshell, exit_raw_subshell, enter_process_substitution,
  exit_process_substitution, enter_bash_53_native_supershell, exit_bash_53_native_supershell,
  enter_supershell, exit_supershell,
}
use bashpp.Listener.Strings.{
  enter_bash_pipeline, exit_bash_pipeline, enter_bash_command_sequence, exit_bash_command_sequence,
  enter_connective, enter_bash_redirection, enter_raw_text, enter_doublequoted_string,
  exit_doublequoted_string, enter_here_string, exit_here_string, enter_heredoc_body,
  exit_heredoc_body, enter_bash_test_condition_command, exit_bash_test_condition_command,
  enter_bash_arithmetic_substitution, exit_bash_arithmetic_substitution, enter_bash_variable,
  exit_bash_variable, enter_primitive_assignment, exit_primitive_assignment,
  enter_parameter_expansion,
}
use bashpp.Listener.Expressions.{
  enter_array_assignment, exit_array_assignment, enter_array_index, exit_array_index,
  enter_typeof_expression, exit_typeof_expression, enter_dynamic_cast, exit_dynamic_cast,
  enter_dynamic_cast_target, exit_dynamic_cast_target, enter_new_statement,
}
use bashpp.Listener.Values.{enter_value_assignment, exit_value_assignment}
use bashpp.Listener.Assignments.{
  enter_delete_statement, exit_delete_statement, enter_object_assignment, exit_object_assignment,
}

-- The node types with handlers above, with what the handlers read of the node. A `plain_node` has no
-- handlers: BashCommand, BashCaseInput, BashArithmeticStatement and Rvalue.
pub data NodeType : Type 0 where
  plain_node if_statement if_root_branch if_condition while_statement until_statement : NodeType
  while_or_until_condition in_condition arithmetic_for arithmetic_for_condition : NodeType
  case_statement a_case_pattern case_pattern_header block raw_subshell supershell pipeline :
      NodeType
  a_command_sequence doublequoted_string here_string test_condition_command : NodeType
  arithmetic_substitution array_assignment array_index typeof_expression a_dynamic_cast : NodeType
  an_object_assignment : NodeType
  if_else_branch subshell_substitution connective : Bool → NodeType
  for_statement select_statement a_bash_function process_substitution native_supershell :
      Text → NodeType
  redirection raw_text heredoc_body bash_variable parameter_expansion : Text → NodeType
  a_value_assignment : Text → NodeType
  new_statement : Text → FilePosition → NodeType
  primitive_assignment : Bool → Text → NodeType
  an_object_reference : Reference → NodeType
  class_definition : Text → FilePosition → Option (Text × FilePosition) → NodeType
  method_definition : Text → FilePosition → Scope → Bool → List Parameter → NodeType
  constructor_definition destructor_definition : NodeType
  datamember_declaration : Scope → Option (Text × FilePosition) → NodeType
  object_instantiation pointer_declaration : Text → FilePosition → Text → FilePosition → NodeType
  a_delete_statement : Option Text → NodeType
  dynamic_cast_target : Option (Text × FilePosition) → NodeType

mutual
  pub data Node : Type 0 where
    node : NodeType → FilePosition → FilePosition → Nodes → Node

  pub data Nodes : Type 0 where
    no_nodes : Nodes
    nodes : Node → Nodes → Nodes

-- `enter##Name`, for a node that begins at `begin`.
unfoldable pub enter_node : NodeType → FilePosition → Listener → Outcome
enter_node plain_node begin = done
enter_node if_statement begin = enter_bash_if_statement
enter_node if_root_branch begin = enter_bash_if_root_branch begin
enter_node (if_else_branch has_condition) begin = enter_bash_if_else_branch has_condition begin
enter_node if_condition begin = enter_bash_if_condition
enter_node while_statement begin = enter_bash_while_statement begin
enter_node until_statement begin = enter_bash_until_statement begin
enter_node while_or_until_condition begin = enter_bash_while_or_until_condition
enter_node (for_statement variable) begin = enter_bash_for_statement variable begin
enter_node (select_statement variable) begin = enter_bash_select_statement variable begin
enter_node in_condition begin = enter_bash_in_condition
enter_node arithmetic_for begin = enter_bash_arithmetic_for_statement
enter_node arithmetic_for_condition begin = enter_bash_arithmetic_for_condition
enter_node case_statement begin = enter_bash_case_statement
enter_node a_case_pattern begin = enter_bash_case_pattern begin
enter_node case_pattern_header begin = enter_bash_case_pattern_header
enter_node block begin = enter_block begin
enter_node (a_bash_function name) begin = enter_bash_function name begin
enter_node (subshell_substitution is_cat) begin = enter_subshell_substitution is_cat begin
enter_node raw_subshell begin = enter_raw_subshell begin
enter_node (process_substitution start) begin = enter_process_substitution start begin
enter_node (native_supershell start) begin = enter_bash_53_native_supershell begin
enter_node supershell begin = enter_supershell begin
enter_node pipeline begin = enter_bash_pipeline
enter_node a_command_sequence begin = enter_bash_command_sequence
enter_node (connective is_and) begin = enter_connective is_and
enter_node (redirection operator) begin = enter_bash_redirection operator
enter_node (raw_text text) begin = enter_raw_text text
enter_node doublequoted_string begin = enter_doublequoted_string
enter_node here_string begin = enter_here_string
enter_node (heredoc_body delimiter) begin = enter_heredoc_body
enter_node test_condition_command begin = enter_bash_test_condition_command
enter_node arithmetic_substitution begin = enter_bash_arithmetic_substitution
enter_node (bash_variable text) begin = enter_bash_variable
enter_node (primitive_assignment is_local identifier) begin = enter_primitive_assignment
enter_node (parameter_expansion text) begin = enter_parameter_expansion text
enter_node array_assignment begin = enter_array_assignment begin
enter_node array_index begin = enter_array_index
enter_node typeof_expression begin = enter_typeof_expression
enter_node a_dynamic_cast begin = enter_dynamic_cast
enter_node (dynamic_cast_target target) begin = enter_dynamic_cast_target
enter_node (new_statement class_name position) begin = enter_new_statement class_name position
enter_node (a_value_assignment operator) begin = enter_value_assignment operator
enter_node (a_delete_statement reference) begin = enter_delete_statement
enter_node an_object_assignment begin = enter_object_assignment
enter_node (object_instantiation type at name position) begin =
    enter_object_instantiation type at name position
enter_node (pointer_declaration type at name position) begin =
    enter_pointer_declaration type at name position
enter_node (an_object_reference q) begin = enter_object_reference
enter_node (class_definition name position parent) begin =
    enter_class_definition name position parent
enter_node (method_definition name position scope virtual parameters) begin =
    enter_method_definition name position scope virtual parameters
enter_node constructor_definition begin = enter_constructor_definition begin
enter_node destructor_definition begin = enter_destructor_definition begin
enter_node (datamember_declaration scope identifier) begin =
    enter_datamember_declaration scope identifier

-- `exit##Name`, for a node from `begin` to `end`.
unfoldable pub exit_node : NodeType → FilePosition → FilePosition → Listener → Outcome
exit_node if_statement begin end = exit_bash_if_statement
exit_node if_root_branch begin end = exit_bash_if_root_branch end
exit_node (if_else_branch has_condition) begin end = exit_bash_if_else_branch end
exit_node if_condition begin end = exit_bash_if_condition
exit_node while_statement begin end = exit_bash_while_statement end
exit_node until_statement begin end = exit_bash_until_statement end
exit_node while_or_until_condition begin end = exit_bash_while_or_until_condition
exit_node (for_statement variable) begin end = exit_bash_for_statement end
exit_node (select_statement variable) begin end = exit_bash_select_statement end
exit_node in_condition begin end = exit_bash_in_condition
exit_node arithmetic_for begin end = exit_bash_arithmetic_for_statement begin end
exit_node arithmetic_for_condition begin end = exit_bash_arithmetic_for_condition
exit_node case_statement begin end = exit_bash_case_statement
exit_node a_case_pattern begin end = exit_bash_case_pattern end
exit_node case_pattern_header begin end = exit_bash_case_pattern_header
exit_node block begin end = exit_block
exit_node (a_bash_function name) begin end = exit_bash_function end
exit_node (subshell_substitution is_cat) begin end = exit_subshell_substitution is_cat end
exit_node raw_subshell begin end = exit_raw_subshell end
exit_node (process_substitution start) begin end = exit_process_substitution
exit_node (native_supershell start) begin end = exit_bash_53_native_supershell start end
exit_node supershell begin end = exit_supershell end
exit_node pipeline begin end = exit_bash_pipeline
exit_node a_command_sequence begin end = exit_bash_command_sequence
exit_node doublequoted_string begin end = exit_doublequoted_string
exit_node here_string begin end = exit_here_string
exit_node (heredoc_body delimiter) begin end = exit_heredoc_body delimiter
exit_node test_condition_command begin end = exit_bash_test_condition_command
exit_node arithmetic_substitution begin end = exit_bash_arithmetic_substitution
exit_node (bash_variable text) begin end = exit_bash_variable text
exit_node (primitive_assignment is_local identifier) begin end =
    exit_primitive_assignment is_local identifier
exit_node array_assignment begin end = exit_array_assignment end
exit_node array_index begin end = exit_array_index
exit_node typeof_expression begin end = exit_typeof_expression
exit_node a_dynamic_cast begin end = exit_dynamic_cast
exit_node (dynamic_cast_target target) begin end = exit_dynamic_cast_target target
exit_node (a_value_assignment operator) begin end = exit_value_assignment operator
exit_node (a_delete_statement reference) begin end = exit_delete_statement reference
exit_node an_object_assignment begin end = exit_object_assignment
exit_node (object_instantiation type at name position) begin end = exit_object_instantiation
exit_node (pointer_declaration type at name position) begin end = exit_pointer_declaration
exit_node (an_object_reference q) begin end = exit_object_reference q
exit_node (class_definition name position parent) begin end = exit_class_definition end
exit_node (method_definition name position scope virtual parameters) begin end =
    exit_method_definition end
exit_node constructor_definition begin end = exit_constructor_definition end
exit_node destructor_definition begin end = exit_destructor_definition end
exit_node (datamember_declaration scope identifier) begin end = exit_datamember_declaration
exit_node _ begin end = done
