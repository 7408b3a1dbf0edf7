-- ===== src/Listener/Blocks.antt =====
-- src/listener/handlers/Block.cpp, BashFunction.cpp, Subshell.cpp, ProcessSubstitution.cpp, Supershell.cpp
-- and Bash53NativeSupershell.cpp: constructs with commands of their own inside. The warning that a native
-- supershell may print is left out.
use bashpp.Prelude.{
  ◌+◌, ◌-◌, Bool, true, false, not, [], ◌∷◌, ◌++◌, none, if◌then◌else◌, Text, lit, concat, is_empty,
}
use bashpp.EntityMap.{FilePosition}
use bashpp.Codegen.Segments.{generate_supershell_code}
use bashpp.Listener.{
  Listener, Entity, Kind, Outcome, class_entity, code_entity, string_entity, method_entity,
  bash_for_or_select, bash_function, object_assignment, done, is_code_entity, and_then, top,
  update_top, push, new_entity,
}
use bashpp.Listener.Entities.{
  on_kind, is_string, get_code, get_pre_code, get_post_code, flush_entity, clear_entity,
  add_code_to_previous_line,
}
use bashpp.Listener.Steps.{
  in_code_entity, popping, on_code_entity, on_any_entity, destruct_local_objects, adopt,
  mark_entity, defined_at, write, write_inline, write_around,
}

-- A block that is the body of a larger construct has no entity and no braces of its own.
unfoldable pub is_larger_construct : Kind → Bool
is_larger_construct (class_entity c) = true
is_larger_construct (method_entity m) = true
is_larger_construct (bash_function name) = true
is_larger_construct (bash_for_or_select h) = true
is_larger_construct _ = false

-- The pre-code, the code and the post-code of an entity, each by a call of `add_code`.
abbrev pub write_out : Entity → Listener → Listener
write_out e l = write (get_post_code e) (write (get_code e) (write (get_pre_code e) l))

-- The containing class is not passed on.
unfoldable pub enter_block : FilePosition → Listener → Outcome
enter_block begin l = elim (is_larger_construct (top l).kind) [
  | true ↦ done l
  | false ↦ in_code_entity (lit "Statement block outside of code entity") l (
      let l' = write_inline (lit "{\n") l in
      let e = record (defined_at begin (new_entity code_entity l')) { containing_class = none } in
      done (push e l'))
]

unfoldable pub exit_block : Listener → Outcome
exit_block l = elim (is_larger_construct (top l).kind) [
  | true ↦ done l
  | false ↦ popping is_code_entity (lit "Block context was not found in the entity stack") l λ e l'.
      on_code_entity (lit "Containing code entity was not found in the entity stack") l' (
        destruct_local_objects e l'
          λ e' l''. done (write_inline (lit "\n}") (write_out (flush_entity e') l'')))
]

abbrev pub is_bash_function : Kind → Bool
is_bash_function (bash_function name) = true
is_bash_function _ = false

abbrev pub name_of : Kind → Text
name_of (bash_function name) = name
name_of _ = []

-- The function is counted before the error.
unfoldable pub enter_bash_function : Text → FilePosition → Listener → Outcome
enter_bash_function name begin l =
    let l' = record l { bash_function_stack = l.bash_function_stack + 1 } in
    in_code_entity (lit "Function definition outside of code entity") l'
      (done (push (defined_at begin (new_entity (bash_function name) l')) l'))

-- The three parts of an entity's code, on lines of their own where they are not empty.
abbrev pub code_on_lines : Entity → Text
code_on_lines e =
    (if not (is_empty (get_pre_code e)) then get_pre_code e ++ lit "\n" else [])
    ++ (get_code e
        ++ (if not (is_empty (get_post_code e)) then lit "\n" ++ get_post_code e else []))

-- A `stack<monostate>` is popped only behind the push of the same construct, so it is not empty.
unfoldable pub exit_bash_function : FilePosition → Listener → Outcome
exit_bash_function end l =
    popping is_bash_function (lit "Function context was not found in the entity stack") l λ e l'.
      on_code_entity (lit "Current code entity was not found in the entity stack") l' (
        destruct_local_objects e l' λ e' l''.
          let body = flush_entity e' in
          let head = concat (lit "function " ∷ name_of e.kind ∷ lit " {\n" ∷ []) in
          let written =
            write_inline (lit "}\n")
              (write (code_on_lines body) (update_top (add_code_to_previous_line head) l'')) in
          let marked = mark_entity end body written in
          done (record marked { bash_function_stack = marked.bash_function_stack - 1 }))

unfoldable pub enter_subshell_substitution : Bool → FilePosition → Listener → Outcome
enter_subshell_substitution is_cat_replacement begin l =
    in_code_entity (lit "Subshell substitution outside of code entity") l (
      let e = record (defined_at begin (new_entity string_entity l)) {
        requires_perfect_forwarding = is_cat_replacement;
      } in
      done (push e l))

unfoldable pub exit_subshell_substitution : Bool → FilePosition → Listener → Outcome
exit_subshell_substitution is_cat_replacement end l =
    popping is_string (lit "Subshell substitution context was not found in the entity stack") l
      λ e l'. on_any_entity l' (elim is_cat_replacement [
        | true ↦
            let text = concat (lit "$(" ∷ get_code e ∷ lit ")" ∷ []) in
            let around = write text (write_around (get_pre_code e) (get_post_code e) l') in
            destruct_local_objects (clear_entity e) around
              λ e' l''. let e'' = flush_entity e' in done (mark_entity end e'' (write_out e'' l''))
        | false ↦ destruct_local_objects e l' λ e' l''.
            let e'' = flush_entity e' in
            done (
              mark_entity end e''
                (write_inline (lit ")") (write_out e'' (write_inline (lit "$(") l''))))
      ])

unfoldable pub enter_raw_subshell : FilePosition → Listener → Outcome
enter_raw_subshell begin l = in_code_entity (lit "Subshell outside of code entity") l (
    let e = defined_at begin (new_entity string_entity l) in
    done (push e (write_inline (lit "(\n") l)))

unfoldable pub exit_raw_subshell : FilePosition → Listener → Outcome
exit_raw_subshell end l =
    popping is_string (lit "Subshell context was not found in the entity stack") l λ e l'.
      on_code_entity (lit "Containing code entity was not found in the entity stack") l' (
        destruct_local_objects e l' λ e' l''.
          let e'' = flush_entity e' in
          done (mark_entity end e'' (write_inline (lit "\n)") (write_out e'' l''))))

unfoldable pub enter_process_substitution : Text → FilePosition → Listener → Outcome
enter_process_substitution substitution_start begin l =
    in_code_entity (lit "Process substitution outside of code entity") l (
      let e = defined_at begin (new_entity string_entity l) in
      done (push e (write_inline substitution_start l)))

unfoldable pub exit_process_substitution : Listener → Outcome
exit_process_substitution l =
    popping is_string (lit "Process substitution context was not found in the entity stack") l
      λ e l'. in_code_entity (lit "Process substitution outside of code entity") l' (
        destruct_local_objects e l'
          λ e' l''. done (write_inline (lit ")") (write_out (flush_entity e') l'')))

unfoldable pub enter_bash_53_native_supershell : FilePosition → Listener → Outcome
enter_bash_53_native_supershell begin l =
    in_code_entity (lit "Subshell substitution outside of code entity") l (
      let e = record (defined_at begin (new_entity string_entity l)) {
        requires_perfect_forwarding = true;
      } in
      done (push e l))

unfoldable pub exit_bash_53_native_supershell : Text → FilePosition → Listener → Outcome
exit_bash_53_native_supershell start_token end l =
    popping is_string (lit "Subshell substitution context was not found in the entity stack") l
      λ e l'. on_any_entity l' (
        let around = write_around (get_pre_code e) (lit "\n" ++ get_post_code e) l' in
        done (mark_entity end e (write (concat (start_token ∷ get_code e ∷ lit "}" ∷ [])) around)))

-- The supershell is counted before the error.
unfoldable pub enter_supershell : FilePosition → Listener → Outcome
enter_supershell begin l =
    let l' = record l { supershell_stack = l.supershell_stack + 1 } in
    in_code_entity (lit "Supershell outside of a code entity") l'
      (done (push (defined_at begin (new_entity string_entity l')) l'))

abbrev pub is_object_assignment : Kind → Bool
is_object_assignment (object_assignment a) = true
is_object_assignment _ = false

unfoldable pub set_rvalue : Text → Kind → Kind
set_rvalue text (object_assignment a) = object_assignment (record a { rvalue = text })
set_rvalue text k = k

-- `set_rvalue` of an object assignment; another entity gets the text by `add_code`.
abbrev pub set_rvalue_or_write : Text → Listener → Listener
set_rvalue_or_write text l =
    if is_object_assignment (top l).kind
    then update_top (on_kind (set_rvalue text)) l
    else write text l

unfoldable pub exit_supershell : FilePosition → Listener → Outcome
exit_supershell end l =
    popping is_string (lit "Supershell context was not found in the entity stack") l λ e l1.
      let marked = mark_entity end e l1 in
      on_code_entity (lit "Current code entity was not found in the entity stack") marked (
        and_then (adopt e marked) λ l2.
          let (segment, p) = generate_supershell_code (code_on_lines e) l2.program in
          let l3 = record l2 { program = p; supershell_stack = l2.supershell_stack - 1 } in
          done
            (set_rvalue_or_write segment.code (write_around segment.pre_code segment.post_code l3)))
