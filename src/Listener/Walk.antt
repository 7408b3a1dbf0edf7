-- ===== src/Listener/Walk.antt =====
-- src/AST/Listener/BaseListener.h: `walk`, which enters a node, walks its children and leaves it. A syntax
-- error ends the node it is thrown for; an internal error ends the walk.
pub mod Handlers
pub mod Stack
pub mod Members
pub mod Declared
pub mod Referred
pub mod LeftMembers
pub mod LeftStatements
pub mod LeftAssignments
pub mod Enter
pub mod Exit
pub mod Balance
use bashpp.Prelude.{true, ◌∷◌}
use bashpp.Listener.{
  Listener, Outcome, done, failed, syntax_error, internal_error, undefined_behaviour, and_then,
}
use bashpp.Listener.Walk.Handlers.{Node, Nodes, node, no_nodes, nodes, enter_node, exit_node}

-- The `catch` of a node: a syntax error is reported, and the walk goes on behind the node.
unfoldable pub caught : Outcome → Outcome
caught (done l) = done l
caught (failed (syntax_error message) l) =
    done (record l { program_has_errors = true; errors = message ∷ l.errors })
caught (failed (internal_error message) l) = failed (internal_error message) l
caught (failed undefined_behaviour l) = failed undefined_behaviour l

unfoldable mutual
  pub walk : Node → Listener → Outcome
  walk (node t begin end children) l = caught (
      and_then (enter_node t begin l) λ l1. and_then (walk_all children l1) (exit_node t begin end))

  pub walk_all : Nodes → Listener → Outcome
  walk_all no_nodes l = done l
  walk_all (nodes n rest) l = and_then (walk n l) (walk_all rest)
