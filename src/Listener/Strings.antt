-- ===== src/Listener/Strings.antt =====
-- src/listener/handlers/BashPipeline.cpp, BashCommandSequence.cpp, Connective.cpp, BashRedirection.cpp,
-- RawText.cpp, DoublequotedString.cpp, HereString.cpp, HeredocBody.cpp, BashTestConditionCommand.cpp,
-- BashArithmeticSubstitution.cpp, BashVariable.cpp, PrimitiveAssignment.cpp and ParameterExpansion.cpp:
-- constructs whose code goes into the line of the code entity around them.
use bashpp.Prelude.{Bool, true, ◌&&◌, ◌||◌, [], ◌∷◌, ◌++◌, ◌==◌, if◌then◌else◌, Text, lit, concat}
use bashpp.CommandSequence.{new_sequence, add_connective}
use bashpp.Listener.{
  Listener, Outcome, string_entity, command_sequence, done, failed, syntax_error, is_code_entity,
  top, update_top, push, new_entity,
}
use bashpp.Listener.Entities.{
  on_kind, on_sequence, is_command_sequence, is_string, get_code, get_pre_code, get_post_code,
}
use bashpp.Listener.Steps.{
  asserting, in_code_entity, popping, on_code_entity, on_any_entity, adopt, write, write_inline,
  write_around,
}

-- A new string on the stack, in a code entity.
abbrev pub enter_string : Text → Listener → Outcome
enter_string message l = in_code_entity message l (done (push (new_entity string_entity l) l))

unfoldable pub enter_bash_pipeline : Listener → Outcome
enter_bash_pipeline = enter_string (lit "Command outside of a code entity")

unfoldable pub exit_bash_pipeline : Listener → Outcome
exit_bash_pipeline l =
    popping is_string (lit "Pipeline context was not found in the entity stack") l λ e l'.
      on_code_entity (lit "Current code entity was not found in the entity stack") l'
        (adopt e (write (get_code e) (write_around (get_pre_code e) (get_post_code e) l')))

unfoldable pub enter_bash_command_sequence : Listener → Outcome
enter_bash_command_sequence l = in_code_entity (lit "Command sequence outside of a code entity") l (
    let q = new_sequence (top l).requires_perfect_forwarding in
    done (push (new_entity (command_sequence q) l) l))

unfoldable pub exit_bash_command_sequence : Listener → Outcome
exit_bash_command_sequence l =
    popping is_command_sequence
      (lit "Bash command sequence context was not found in the entity stack") l
      λ e l'.
        on_code_entity (lit "Current code entity was not found in the entity stack") l'
          (adopt e (write (get_code e) (write_around (get_pre_code e) (get_post_code e) l')))

unfoldable pub enter_connective : Bool → Listener → Outcome
enter_connective is_and l =
    asserting (is_command_sequence (top l).kind)
      (lit "Connective found outside of bash command sequence") l
      (done (update_top (on_kind (on_sequence (add_connective is_and))) l))

unfoldable pub enter_bash_redirection : Text → Listener → Outcome
enter_bash_redirection operator l =
    in_code_entity (lit "Redirection outside of code entity") l
      (done (write_inline (operator ++ lit " ") l))

-- `find_first_not_of(" \t\n\r") == npos`
unfoldable pub is_blank : Text → Bool
is_blank [] = true
is_blank (c ∷ s) = ((c == b' ') || ((c == b'\t') || ((c == b'\n') || (c == b'\r')))) && is_blank s

unfoldable pub enter_raw_text : Text → Listener → Outcome
enter_raw_text text l =
    if is_code_entity (top l).kind
    then done (write text l)
    else if is_blank text
    then done l
    else failed (syntax_error (lit "Raw text outside of code entity")) l

-- The opening quote goes to the entity below the new string.
unfoldable pub enter_doublequoted_string : Listener → Outcome
enter_doublequoted_string l =
    in_code_entity (lit "String outside of code entity") l
      (done (push (new_entity string_entity l) (write_inline (lit "\"") l)))

-- Without a code entity below, nothing is written.
unfoldable pub exit_doublequoted_string : Listener → Outcome
exit_doublequoted_string l =
    popping is_string (lit "String context was not found in the entity stack") l λ e l'.
      if is_code_entity (top l').kind
      then done (
          write_inline (get_code e ++ lit "\"")
            (write_around (get_pre_code e) (get_post_code e) l'))
      else done l'

unfoldable pub enter_here_string : Listener → Outcome
enter_here_string = enter_string (lit "HereString outside of a code entity")

unfoldable pub exit_here_string : Listener → Outcome
exit_here_string l =
    popping is_string (lit "Herestring entity not found in the entity stack") l λ e l'.
      on_code_entity (lit "Current code entity not found in the entity stack") l' (
        done (
          write_inline (lit "<<<" ++ get_code e)
            (write_around (get_pre_code e) (get_post_code e) l')))

unfoldable pub enter_heredoc_body : Listener → Outcome
enter_heredoc_body = enter_string (lit "Heredoc outside of a code entity")

unfoldable pub exit_heredoc_body : Text → Listener → Outcome
exit_heredoc_body delimiter l =
    popping is_string (lit "Heredoc entity not found in the entity stack") l λ e l'.
      on_code_entity (lit "Current code entity not found in the entity stack") l' (
        done (
          write_inline (lit "\n" ++ (get_code e ++ delimiter))
            (write_around (get_pre_code e) (get_post_code e) l')))

unfoldable pub enter_bash_test_condition_command : Listener → Outcome
enter_bash_test_condition_command l = in_code_entity (lit "Test command outside of code entity") l (
    let e = record (new_entity string_entity l) { requires_perfect_forwarding = true } in
    done (push e (write_inline (lit "[[ ") l)))

unfoldable pub exit_bash_test_condition_command : Listener → Outcome
exit_bash_test_condition_command l =
    popping is_code_entity (lit "Test command context was not found in the entity stack") l λ e l'.
      if is_code_entity (top l').kind
      then done (
          write_inline (get_code e ++ lit " ]]")
            (write_around (get_pre_code e) (get_post_code e) l'))
      else done l'

unfoldable pub enter_bash_arithmetic_substitution : Listener → Outcome
enter_bash_arithmetic_substitution l =
    in_code_entity (lit "Bash arithmetic outside of code entity") l
      (done (push (record (new_entity string_entity l) { requires_perfect_forwarding = true }) l))

unfoldable pub exit_bash_arithmetic_substitution : Listener → Outcome
exit_bash_arithmetic_substitution l =
    popping is_string (lit "Bash arithmetic context was not found in the entity stack") l λ e l'.
      on_any_entity l' (
        let text = concat (lit "$((" ∷ get_code e ∷ lit "))" ∷ []) in
        done (write text (write_around (get_pre_code e) (get_post_code e) l')))

unfoldable pub enter_bash_variable : Listener → Outcome
enter_bash_variable = enter_string (lit "Command outside of a code entity")

unfoldable pub exit_bash_variable : Text → Listener → Outcome
exit_bash_variable text l =
    popping is_string (lit "Bash variable context was not found in the entity stack") l λ e l'.
      on_code_entity (lit "Current code entity was not found in the entity stack") l' (
        let code = concat (lit "${" ∷ text ∷ get_code e ∷ lit "}" ∷ []) in
        done (write code (write_around (get_pre_code e) (get_post_code e) l')))

unfoldable pub enter_primitive_assignment : Listener → Outcome
enter_primitive_assignment = enter_string (lit "Variable assignment outside of code entity")

unfoldable pub exit_primitive_assignment : Bool → Text → Listener → Outcome
exit_primitive_assignment is_local identifier l =
    popping is_code_entity (lit "Primitive assignment context was not found in the entity stack") l
      λ e l'. on_code_entity (lit "Current code entity was not found in the entity stack") l' (
        let lvalue = (if is_local then lit "local " else []) ++ identifier in
        done (write (lvalue ++ get_code e) (write_around (get_pre_code e) (get_post_code e) l')))

unfoldable pub enter_parameter_expansion : Text → Listener → Outcome
enter_parameter_expansion expansion_begin l =
    asserting (is_code_entity (top l).kind)
      (lit "Current code entity was not found in the entity stack") l
      (done (write_inline expansion_begin l))
