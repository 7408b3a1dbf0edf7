-- ===== src/Listener/Headers.antt =====
-- src/listener/handlers/BashForOrSelectStatement.cpp, BashArithmeticForStatement.cpp and
-- BashCaseStatement.cpp: statements whose header is collected before the body. A case pattern stands
-- directly above its case statement on the stack.
use bashpp.Prelude.{Bool, true, false, [], ◌∷◌, ◌++◌, Text, lit, concat}
use bashpp.EntityMap.{FilePosition}
use bashpp.Listener.{
  Listener, Entity, Kind, Header, Outcome, string_entity, bash_for_or_select, bash_case,
  case_pattern, done, top, update_top, push, new_entity,
}
use bashpp.Listener.Entities.{
  on_kind, is_string, get_code, get_pre_code, get_post_code, flush_entity,
  add_code_to_previous_line, add_code_to_next_line,
}
use bashpp.Listener.Steps.{
  asserting, in_code_entity, popping, on_code_entity, destruct_local_objects, mark_entity,
  mark_between, defined_at, write, write_inline, write_around,
}

abbrev pub is_for_or_select : Kind → Bool
is_for_or_select (bash_for_or_select h) = true
is_for_or_select _ = false

abbrev pub is_bash_case : Kind → Bool
is_bash_case (bash_case cases) = true
is_bash_case _ = false

abbrev pub is_case_pattern : Kind → Bool
is_case_pattern (case_pattern p) = true
is_case_pattern _ = false

abbrev pub header_of : Kind → Header
header_of (bash_for_or_select h) = h
header_of _ = record { pre_code = []; post_code = []; code = [] }

abbrev pub enter_for_or_select : Text → Text → FilePosition → Listener → Outcome
enter_for_or_select message header begin l = in_code_entity message l (
    let h : Header = record { pre_code = []; post_code = []; code = header } in
    done (push (defined_at begin (new_entity (bash_for_or_select h) l)) l))

unfoldable pub enter_bash_for_statement : Text → FilePosition → Listener → Outcome
enter_bash_for_statement variable begin l =
    enter_for_or_select (lit "For statement outside of code entity")
      (concat (lit "for " ∷ variable ∷ lit " in " ∷ [])) begin l

unfoldable pub enter_bash_select_statement : Text → FilePosition → Listener → Outcome
enter_bash_select_statement variable begin l =
    enter_for_or_select (lit "Select statement outside of code entity")
      (concat (lit "select " ∷ variable ∷ lit " in " ∷ [])) begin l

abbrev pub exit_for_or_select : Text → FilePosition → Listener → Outcome
exit_for_or_select message end l = popping is_for_or_select message l λ e l'.
    on_code_entity (lit "Current code entity not found in the entity stack") l' (
      destruct_local_objects e l' λ e' l''.
        let body = flush_entity e' in
        let h = header_of e.kind in
        let whole = get_pre_code body ++ (get_code body ++ get_post_code body) in
        done (
          mark_entity end body (
            write_inline (lit "done ")
              (write whole (write h.code (write_around h.pre_code h.post_code l''))))))

unfoldable pub exit_bash_for_statement : FilePosition → Listener → Outcome
exit_bash_for_statement = exit_for_or_select (lit "For loop entity not found in the entity stack")

unfoldable pub exit_bash_select_statement : FilePosition → Listener → Outcome
exit_bash_select_statement =
    exit_for_or_select (lit "Select statement entity not found in the entity stack")

-- `set_header_pre_code`, `set_header_post_code` and `set_header_code`
unfoldable pub set_header : (Header → Header) → Kind → Kind
set_header f (bash_for_or_select h) = bash_for_or_select (f h)
set_header f k = k

unfoldable pub enter_bash_in_condition : Listener → Outcome
enter_bash_in_condition l =
    asserting (is_for_or_select (top l).kind)
      (lit "For/select statement entity not found in the entity stack") l
      (done (push (new_entity string_entity l) l))

unfoldable pub exit_bash_in_condition : Listener → Outcome
exit_bash_in_condition l =
    popping is_string (lit "In condition entity not found in the entity stack") l λ e l'.
      asserting (is_for_or_select (top l').kind)
        (lit "For/select statement entity not found in the entity stack") l'
        (let f : Header → Header = λ h. record {
          pre_code = get_pre_code e;
          post_code = get_post_code e;
          code = h.code ++ (get_code e ++ lit "; do\n");
        } in
          done (update_top (on_kind (set_header f)) l'))

-- No position is kept on the entity: the node has it.
unfoldable pub enter_bash_arithmetic_for_statement : Listener → Outcome
enter_bash_arithmetic_for_statement l =
    in_code_entity (lit "For statement outside of code entity") l (
      let h : Header = record { pre_code = []; post_code = []; code = [] } in
      done (push (new_entity (bash_for_or_select h) l) l))

-- The loop's entity is neither flushed nor are its objects destructed.
unfoldable pub exit_bash_arithmetic_for_statement : FilePosition → FilePosition → Listener → Outcome
exit_bash_arithmetic_for_statement begin end l =
    popping is_for_or_select (lit "For loop entity not found in the entity stack") l λ e l'.
      on_code_entity (lit "Current code entity not found in the entity stack") l' (
        let h = header_of e.kind in
        let whole = get_pre_code e ++ (get_code e ++ get_post_code e) in
        done (
          mark_between begin end e (
            write whole (
              update_top (add_code_to_previous_line h.code) (
                update_top (add_code_to_next_line h.post_code)
                  (write_around h.pre_code (lit "done\n") l'))))))

unfoldable pub enter_bash_arithmetic_for_condition : Listener → Outcome
enter_bash_arithmetic_for_condition l =
    asserting (is_for_or_select (top l).kind) (lit "For condition outside of for/select statement")
      l (done (push (new_entity string_entity l) l))

unfoldable pub exit_bash_arithmetic_for_condition : Listener → Outcome
exit_bash_arithmetic_for_condition l =
    popping is_string (lit "For condition entity not found in the entity stack") l λ e l'.
      asserting (is_for_or_select (top l').kind)
        (lit "For/select statement entity not found in the entity stack") l'
        (let f : Header → Header = λ h. record {
          pre_code = get_pre_code e;
          post_code = get_post_code e;
          code = concat (lit "for ((" ∷ get_code e ∷ lit ")) ; do\n" ∷ []);
        } in
          done (update_top (on_kind (set_header f)) l'))

unfoldable pub enter_bash_case_statement : Listener → Outcome
enter_bash_case_statement l =
    in_code_entity (lit "Case statement outside of code entity") l
      (done (push (new_entity (bash_case []) l) l))

-- `get_cases` and `get_pattern`
abbrev pub text_of : Kind → Text
text_of (bash_case cases) = cases
text_of (case_pattern p) = p
text_of _ = []

unfoldable pub exit_bash_case_statement : Listener → Outcome
exit_bash_case_statement l =
    popping is_bash_case (lit "Case statement entity not found in the entity stack") l λ e l'.
      on_code_entity (lit "Current code entity not found in the entity stack") l' (
        let text =
          concat (lit "case " ∷ get_code e ∷ lit " in\n" ∷ text_of e.kind ∷ lit "\nesac " ∷ []) in
        done (write_inline text (write_around (get_pre_code e) (get_post_code e) l')))

unfoldable pub enter_bash_case_pattern : FilePosition → Listener → Outcome
enter_bash_case_pattern begin l =
    asserting (is_bash_case (top l).kind)
      (lit "Case statement entity not found in the entity stack") l
      (done (push (defined_at begin (new_entity (case_pattern []) l)) l))

unfoldable pub add_case : Text → Kind → Kind
add_case text (bash_case cases) = bash_case (cases ++ text)
add_case text k = k

unfoldable pub exit_bash_case_pattern : FilePosition → Listener → Outcome
exit_bash_case_pattern end l =
    popping is_case_pattern (lit "Case pattern entity not found in the entity stack") l λ e l'.
      asserting (is_bash_case (top l').kind)
        (lit "Case statement entity not found in the entity stack") l'
        (destruct_local_objects e l' λ e' l''.
          let body = flush_entity e' in
          let text = concat (
            text_of e.kind
            ∷ lit ")\n"
            ∷ get_pre_code body
            ∷ lit "\n"
            ∷ get_code body
            ∷ lit "\n"
            ∷ get_post_code body
            ∷ lit "\n;;\n"
            ∷ []) in
          done (mark_entity end body (update_top (on_kind (add_case text)) l'')))

unfoldable pub enter_bash_case_pattern_header : Listener → Outcome
enter_bash_case_pattern_header l =
    asserting (is_case_pattern (top l).kind)
      (lit "Case pattern entity not found in the entity stack") l
      (done (push (new_entity string_entity l) l))

unfoldable pub set_pattern : Text → Kind → Kind
set_pattern text (case_pattern p) = case_pattern text
set_pattern text k = k

-- `f` on the entity below the top, `get_containing_case()` of a case pattern.
unfoldable pub update_below : (Entity → Entity) → Listener → Listener
update_below f l = elim l.stack [
  | [] ↦ l
  | pattern ∷ rest ↦ elim rest [ [] ↦ l | e ∷ es ↦ record l { stack = pattern ∷ (f e ∷ es) } ]
]

unfoldable pub exit_bash_case_pattern_header : Listener → Outcome
exit_bash_case_pattern_header l =
    popping is_string (lit "Case pattern header entity not found in the entity stack") l λ e l'.
      asserting (is_case_pattern (top l').kind)
        (lit "Case pattern entity not found in the entity stack") l'
        (done (
          update_top (on_kind (set_pattern (get_code e))) (
            update_below
              (λ c.
                add_code_to_next_line (get_post_code e)
                  (add_code_to_previous_line (get_pre_code e) c))
              l')))
