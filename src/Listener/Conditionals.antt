-- ===== src/Listener/Conditionals.antt =====
-- src/listener/handlers/BashIfStatement.cpp and BashWhileOrUntilStatement.cpp, with bash_if.cpp. The
-- pointers from a branch to its if statement and from a condition to its loop are the order of the stack:
-- a branch is pushed onto its statement, a condition onto its loop.
use bashpp.Prelude.{
  Bool, true, false, not, ◌&&◌, List, [], ◌∷◌, ◌++◌, Option, none, some, if◌then◌else◌, Text, lit,
  concat, is_empty,
}
use bashpp.EntityMap.{FilePosition}
use bashpp.CodeBuffers.{CodeEntity, fresh, ends_in_newline}
use bashpp.Listener.{
  Listener, Entity, Kind, Outcome, string_entity, if_branch, loop_condition, bash_if, bash_loop,
  done, failed, undefined_behaviour, top, update_top, push, new_entity,
}
use bashpp.Listener.Entities.{
  on_kind, is_string, get_code, get_pre_code, get_post_code, flush_entity,
}
use bashpp.Listener.Steps.{
  asserting, in_code_entity, popping, on_code_entity, destruct_local_objects, mark_entity,
  defined_at, write, write_inline, write_around,
}

abbrev pub is_bash_if : Kind → Bool
is_bash_if (bash_if branches) = true
is_bash_if _ = false

abbrev pub is_if_branch : Kind → Bool
is_if_branch if_branch = true
is_if_branch _ = false

abbrev pub is_loop : Kind → Bool
is_loop (bash_loop c) = true
is_loop _ = false

abbrev pub is_loop_condition : Kind → Bool
is_loop_condition loop_condition = true
is_loop_condition _ = false

-- bash_if.cpp. `back()` of the empty vector is undefined; every handler that calls one of the last two
-- has a branch.
abbrev pub Branches : Type 0
Branches = List (Text × Text)

unfoldable pub new_branch : Branches → Branches
new_branch bs = bs ++ ([], []) ∷ []

unfoldable pub add_condition_code : Text → Branches → Branches
add_condition_code t [] = []
add_condition_code t ((c, b) ∷ []) = (c ++ t, b) ∷ []
add_condition_code t (x ∷ (y ∷ bs)) = x ∷ add_condition_code t (y ∷ bs)

unfoldable pub add_branch_code : Text → Branches → Branches
add_branch_code t [] = []
add_branch_code t ((c, b) ∷ []) = (c, b ++ t) ∷ []
add_branch_code t (x ∷ (y ∷ bs)) = x ∷ add_branch_code t (y ∷ bs)

unfoldable pub on_branches : (Branches → Branches) → Kind → Kind
on_branches f (bash_if bs) = bash_if (f bs)
on_branches f k = k

-- The if statement of the branch on top of the stack: the entity below it.
unfoldable pub update_if_statement : (Branches → Branches) → Listener → Listener
update_if_statement f l = elim l.stack [
  | [] ↦ l
  | branch ∷ rest ↦ elim rest [
    | [] ↦ l
    | e ∷ es ↦ record l { stack = branch ∷ (on_kind (on_branches f) e ∷ es) }
  ]
]

unfoldable pub enter_bash_if_statement : Listener → Outcome
enter_bash_if_statement l =
    in_code_entity (lit "If statement outside of code entity") l
      (done (push (new_entity (bash_if []) l) l))

-- The loop over `get_conditional_branches()`.
unfoldable pub write_branches : Branches → Listener → Listener
write_branches [] l = l
write_branches ((condition, branch) ∷ bs) l = write_branches bs (write branch (write condition l))

abbrev pub branches_of : Kind → Branches
branches_of (bash_if bs) = bs
branches_of _ = []

unfoldable pub exit_bash_if_statement : Listener → Outcome
exit_bash_if_statement l =
    popping is_bash_if (lit "If statement context was not found in the entity stack") l λ e l'.
      on_code_entity (lit "Code entity not found in the entity stack") l'
        (done (write_inline (lit "fi ") (write_branches (branches_of e.kind) l')))

-- `new_branch`, the word that opens the branch, and the branch's entity.
unfoldable pub open_branch : Text → FilePosition → Listener → Outcome
open_branch word begin l =
    asserting (is_bash_if (top l).kind) (lit "If statement entity not found in the entity stack") l
      (let l' =
          update_top (on_kind (on_branches (λ bs. add_condition_code word (new_branch bs)))) l in
        done (push (defined_at begin (new_entity if_branch l')) l'))

unfoldable pub enter_bash_if_root_branch : FilePosition → Listener → Outcome
enter_bash_if_root_branch begin l = open_branch (lit "if ") begin l

unfoldable pub enter_bash_if_else_branch : Bool → FilePosition → Listener → Outcome
enter_bash_if_else_branch has_condition begin l =
    open_branch (if has_condition then lit "elif " else lit "else\n") begin l

unfoldable pub close_branch : Text → FilePosition → Listener → Outcome
close_branch message end l = popping is_if_branch message l λ e l'.
    asserting (is_bash_if (top l').kind) (lit "If statement entity not found") l' (
      destruct_local_objects e l' λ e' l''.
        let branch = flush_entity e' in
        let add : Branches → Branches = λ bs.
          add_branch_code (get_post_code branch)
            (add_branch_code (get_code branch) (add_branch_code (get_pre_code branch) bs)) in
        done (mark_entity end branch (update_top (on_kind (on_branches add)) l'')))

unfoldable pub exit_bash_if_root_branch : FilePosition → Listener → Outcome
exit_bash_if_root_branch end l =
    close_branch (lit "Root branch entity not found in the entity stack") end l

unfoldable pub exit_bash_if_else_branch : FilePosition → Listener → Outcome
exit_bash_if_else_branch end l =
    close_branch (lit "Branch entity not found in the entity stack") end l

unfoldable pub enter_bash_if_condition : Listener → Outcome
enter_bash_if_condition l =
    asserting (is_if_branch (top l).kind) (lit "'If' branch entity not found in the entity stack") l
      (done (push (new_entity string_entity l) l))

-- The text between the braces of a condition: the post-code is left out behind a newline.
unfoldable pub condition_text : Text → Text → Text → Text
unfolding ends_in_newline
condition_text pre_code code post_code =
    let pre =
      if not (is_empty pre_code) && not (ends_in_newline pre_code)
      then pre_code ++ lit "\n"
      else pre_code in
    let whole = pre ++ code in
    if not (is_empty post_code) && not (ends_in_newline whole)
    then whole ++ (lit "\n" ++ post_code)
    else whole

unfoldable pub exit_bash_if_condition : Listener → Outcome
exit_bash_if_condition l =
    popping is_string (lit "Condition entity not found in the entity stack") l λ e l'.
      asserting (is_if_branch (top l').kind)
        (lit "'If' branch entity not found in the entity stack") l'
        (let text = condition_text (get_pre_code e) (get_code e) (get_post_code e) in
          done (
            update_if_statement
              (add_condition_code (concat (lit "{\n" ∷ text ∷ lit "\n}; then\n" ∷ []))) l'))

unfoldable pub enter_loop : Text → FilePosition → Listener → Outcome
enter_loop message begin l =
    in_code_entity message l (done (push (defined_at begin (new_entity (bash_loop none) l)) l))

unfoldable pub enter_bash_while_statement : FilePosition → Listener → Outcome
enter_bash_while_statement = enter_loop (lit "While statement outside of code entity")

unfoldable pub enter_bash_until_statement : FilePosition → Listener → Outcome
enter_bash_until_statement = enter_loop (lit "Until statement outside of code entity")

abbrev pub condition_of : Kind → Option CodeEntity
condition_of (bash_loop c) = c
condition_of _ = none

abbrev pub loop_text : Text → Text → Entity → Text
loop_text word condition body = concat (
    word
    ∷ condition
    ∷ lit "; do\n"
    ∷ get_pre_code body
    ∷ lit "\n"
    ∷ get_code body
    ∷ lit "\ndone"
    ∷ [])

-- The condition is a string: what it wrote out is its pre-code, its next-line buffer its code.
unfoldable pub exit_loop : Text → Text → FilePosition → Listener → Outcome
exit_loop word message end l = popping is_loop message l λ e l'.
    on_code_entity (lit "Current code entity not found in the entity stack") l' (
      destruct_local_objects e l' λ e' l''.
        let body = flush_entity e' in
        elim (condition_of e.kind) [
          | none ↦ failed undefined_behaviour l''
          | some c ↦ done (
              mark_entity end body (
                write_inline (loop_text word c.nextline_buffer body)
                  (write_around c.code c.postline_buffer l'')))
        ])

unfoldable pub exit_bash_while_statement : FilePosition → Listener → Outcome
exit_bash_while_statement =
    exit_loop (lit "while ") (lit "While statement entity not found in the entity stack")

unfoldable pub exit_bash_until_statement : FilePosition → Listener → Outcome
exit_bash_until_statement =
    exit_loop (lit "until ") (lit "Until statement entity not found in the entity stack")

unfoldable pub set_condition : CodeEntity → Kind → Kind
set_condition c (bash_loop old) = bash_loop (some c)
set_condition c k = k

unfoldable pub enter_bash_while_or_until_condition : Listener → Outcome
enter_bash_while_or_until_condition l =
    asserting (is_loop (top l).kind)
      (lit "While/until statement entity not found in the entity stack") l
      (done (push (new_entity loop_condition l) (update_top (on_kind (set_condition fresh)) l)))

-- The popped entity is the one that the loop below points to.
unfoldable pub exit_bash_while_or_until_condition : Listener → Outcome
exit_bash_while_or_until_condition l =
    popping is_loop_condition (lit "While/until condition entity not found in the entity stack") l
      λ e l'. done (update_top (on_kind (set_condition e.buffers)) l')
