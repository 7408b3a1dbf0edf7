-- ===== src/Ast.antt =====
-- src/AST/ASTNode.cpp: the children of a node of the syntax tree, with adjacent raw text merged.
pub mod Children
use bashpp.Prelude.{
  ℕ, ◌+◌, Bool, true, false, not, ◌&&◌, List, [], ◌∷◌, ◌++◌, Option, none, some, ◌==◌, get_elem?,
  length, if◌then◌else◌, Text, last,
}
use bashpp.EntityMap.{FilePosition}

-- A child: raw text, or a node of any other type, by its number. A null pointer is `none`.
pub data Node : Type 0 where
  raw_text : Text → Node
  other : ℕ → Node

-- `lastRawText->appendText(…)` on the last child, which is raw text
abbrev append_to : Text → Node → Node
append_to text (raw_text t) = raw_text (t ++ text)
append_to text (other n) = other n

pub append_text : Text → List Node → List Node
append_text text [] = []
append_text text (n ∷ []) = append_to text n ∷ []
append_text text (n ∷ (m ∷ ns)) = n ∷ append_text text (m ∷ ns)

abbrev is_raw_text : Option Node → Bool
is_raw_text none = false
is_raw_text (some (raw_text t)) = true
is_raw_text (some (other n)) = false

unfoldable pub add_child : List Node → Option Node → List Node
unfolding append_text last
add_child children none = children
add_child children (some (other n)) = children ++ other n ∷ []
add_child children (some (raw_text t)) =
    if is_raw_text (last children) then append_text t children else children ++ raw_text t ∷ []

-- The loop of `addChildren`; the flag tells whether `lastRawText` is set, and then it is the last child.
pub add_each : Bool → List Node → List (Option Node) → List Node
unfolding append_text
add_each last_raw_text children [] = children
add_each last_raw_text children (none ∷ childs) = add_each last_raw_text children childs
add_each last_raw_text children (some (other n) ∷ childs) =
    add_each false (children ++ other n ∷ []) childs
add_each last_raw_text children (some (raw_text t) ∷ childs) =
    add_each true (if last_raw_text then append_text t children else children ++ raw_text t ∷ [])
      childs

unfoldable pub add_children : List Node → List (Option Node) → List Node
unfolding add_each last
add_children children childs = add_each (is_raw_text (last children)) children childs

unfoldable pub get_child_at : List Node → ℕ → Option Node
get_child_at children index = get_elem? children index

unfoldable pub get_first_child : List Node → Option Node
get_first_child children = get_elem? children 0

unfoldable pub get_last_child : List Node → Option Node
unfolding last
get_last_child children = last children

unfoldable pub get_children_count : List Node → ℕ
get_children_count children = length children

-- An end position that was never set is the position itself.
unfoldable pub get_end_position : FilePosition → FilePosition → FilePosition
get_end_position position end_position =
    if (end_position.line == 0) && (end_position.column == 0) then position else end_position
