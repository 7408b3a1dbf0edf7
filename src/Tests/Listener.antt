-- ===== src/Tests/Listener.antt =====
-- A listener in a program with no other entity, and one inside a class.
use bashpp.Prelude.{false, true, same_text, List, [], ◌∷◌, ◌++◌, ◌≡◌, refl, Text, lit, concat}
use bashpp.Entities.{get_object, find, index_of, find_in_parents, add_object as add_to_scope}
use bashpp.Listener.Declarations.{add_object, takes_object, object_code}
use bashpp.Listener.Declared.{scope_of, add_object-scope}
use bashpp.EntityMap.{FilePosition}
use bashpp.CodeBuffers.{has_plain_newline, ends_in_newline}
use bashpp.Tests.Programs.{store, program}
use bashpp.Listener.{
  Listener, Outcome, done, failed, push, new_entity, class_entity, top, is_code_entity, and_then,
  update_top, Entity, Object, seen_class, code_entities, code_entity,
}
use bashpp.Listener.Entities.{
  add_code, get_code, get_pre_code, add_code_to_previous_line, add_code_to_next_line, flush_entity,
}
use bashpp.Listener.Steps.{
  in_code_entity, asserting, popping, on_code_entity, destruct_local_objects, deletions,
  mark_entity,
}
use bashpp.Listener.Conditionals.{
  enter_bash_while_statement, enter_loop, exit_loop, exit_bash_while_statement,
  enter_bash_while_or_until_condition, exit_bash_while_or_until_condition, set_condition,
}
use bashpp.Listener.Strings.{enter_raw_text}
use bashpp.Listener.Walk.{walk, caught}
use bashpp.Listener.Walk.Handlers.{
  Node, node, no_nodes, nodes, while_statement, while_or_until_condition, raw_text, enter_node,
  exit_node,
}
use bashpp.Listener.Walk.Stack.{shapes}
use bashpp.Listener.Walk.Balance.{walk-shapes}

abbrev start : Listener
start = record {
  source_file = lit "main.bpp";
  stack = [];
  program = program;
  program_objects = [];
  store = store;
  next_datamember = 9;
  classes = [];
  class_references = [];
  marks = [];
  in_class = false;
  in_method = false;
  supershell_stack = 0;
  bash_function_stack = 0;
  dynamic_cast_stack = 0;
  typeof_stack = 0;
  context_expectations_stack = [];
  program_has_errors = false;
  errors = [];
}

abbrev here : FilePosition
here = record { line = 1; column = 0 }

abbrev text : Text → Node
text t = node (raw_text t) here here no_nodes

-- `while test; do` and a command, in a function.
abbrev a_loop : Node
a_loop = node while_statement here here (
    nodes (node while_or_until_condition here here (nodes (text (lit "test")) no_nodes))
      (nodes (text (lit "echo x\n")) no_nodes))

abbrev after : Outcome → Listener
after (done l) = l
after (failed f l) = l

loop_ends : walk a_loop start ≡ done (after (walk a_loop start))
unfolding walk caught and_then enter_node exit_node enter_bash_while_statement enter_loop exit_loop
    exit_bash_while_statement enter_bash_while_or_until_condition exit_bash_while_or_until_condition
    enter_raw_text in_code_entity asserting popping on_code_entity destruct_local_objects deletions
    top new_entity set_condition mark_entity update_top is_code_entity add_code
loop_ends = refl

loop_run :
    (after (walk a_loop start)).program.output.nextline_buffer
    ≡ lit "while test; do\necho x\n\n\ndone"
unfolding walk caught and_then enter_node exit_node enter_bash_while_statement enter_loop exit_loop
    exit_bash_while_statement enter_bash_while_or_until_condition exit_bash_while_or_until_condition
    enter_raw_text in_code_entity asserting popping on_code_entity destruct_local_objects deletions
    top new_entity set_condition mark_entity update_top is_code_entity add_code get_code
    get_pre_code add_code_to_previous_line add_code_to_next_line lit concat flush_entity
    has_plain_newline ends_in_newline
loop_run = refl

walk-shapes_example : shapes (after (walk a_loop start)) ≡ shapes start
walk-shapes_example = walk-shapes a_loop start (after (walk a_loop start)) loop_ends

-- In a class's body.
abbrev in_class_body : Listener
in_class_body = push (new_entity (class_entity 0) start) start

abbrev an_object : Text → Object
an_object name = record {
  named = record { name = name; id = 0 };
  address = lit "bpp__Stack__" ++ name;
  class = 0;
  pointer = false;
  assignment_value = [];
  pre_access_code = [];
  post_access_code = [];
}

-- A block that knows the program's object and has one of its own.
abbrev the_block : Entity
the_block = record (new_entity code_entity start) {
  known = 1;
  local_objects = an_object (lit "inner") ∷ [];
}

abbrev a_block : List Entity
a_block = the_block ∷ []

-- A block in a program with the class of the store's first class, and a pointer to declare.
abbrev box_pointer : Object
box_pointer = record (an_object (lit "p")) { pointer = true; assignment_value = lit "0" }

abbrev in_block : Listener
in_block = record start {
  classes = record { name = (store.class_at 0).name; id = 0 } ∷ [];
  stack = a_block;
}

pointer_taken : takes_object box_pointer in_block ≡ true
unfolding takes_object get_object find_in_parents find seen_class code_entities index_of same_text
    is_code_entity top new_entity lit
pointer_taken = refl

pointer_added :
    add_object box_pointer false in_block ≡ done (after (add_object box_pointer false in_block))
unfolding add_object takes_object object_code get_object find_in_parents find seen_class
    code_entities index_of same_text is_code_entity top new_entity lit
pointer_added = refl

block_is_code : is_code_entity (new_entity code_entity start).kind ≡ true
unfolding is_code_entity new_entity
block_is_code = refl

add_object-scope_example :
    scope_of (after (add_object box_pointer false in_block))
    ≡ (add_to_scope box_pointer.named (scope_of in_block)).0
add_object-scope_example =
    add_object-scope box_pointer false in_block (after (add_object box_pointer false in_block))
      the_block [] refl block_is_code pointer_taken pointer_added
