-- ===== src/Listener/Walk/Balance.antt =====
-- The walk and the entity stack.
use bashpp.Prelude.{ℕ, List, [], ◌≡◌, refl, subst, ◌∙◌}
use bashpp.Listener.{
  Listener, Outcome, done, failed, syntax_error, internal_error, undefined_behaviour,
}
use bashpp.Listener.Walk.{walk, walk_all, caught}
use bashpp.Listener.Walk.Handlers.{Node, Nodes, node, no_nodes, nodes}
use bashpp.Listener.Walk.Stack.{shapes, Leaves, Keeps, and_then-Leaves}
use bashpp.Listener.Walk.Enter.{opens, enter-Leaves}
use bashpp.Listener.Walk.Exit.{exit-Keeps}

caught-Leaves : (o : Outcome) (ks before : List ℕ) → Keeps ks o → Leaves ks before (caught o)
unfolding caught Leaves
caught-Leaves (done l) ks before h = h
caught-Leaves (failed (syntax_error m) l) ks before h = h
caught-Leaves (failed (internal_error m) l) ks before h = tt
caught-Leaves (failed undefined_behaviour l) ks before h = tt

mutual
  unfolding walk Leaves

  walk-Leaves : (n : Node) (l : Listener) (before : List ℕ) → Leaves (shapes l) before (walk n l)
  walk-Leaves (node t begin end children) l before = caught-Leaves _ _ before (
      and_then-Leaves _ _ (opens t (shapes l)) _ _ (enter-Leaves t begin l) λ l1 s1.
        and_then-Leaves _ _ (shapes l1) _ _ (walk_all-Leaves children l1 (shapes l))
          λ l2 s2. exit-Keeps t begin end l2 (shapes l) (s2 ∙ s1))

  walk_all-Leaves :
      (ns : Nodes) (l : Listener) (before : List ℕ) → Leaves (shapes l) before (walk_all ns l)
  walk_all-Leaves no_nodes l before = refl
  walk_all-Leaves (nodes n rest) l before =
      and_then-Leaves _ _ (shapes l) _ _ (walk-Leaves n l before) λ l1 s1.
        subst (λ ks. Leaves ks before (walk_all rest l1)) s1 (walk_all-Leaves rest l1 before)

-- When the walk of a node ends, whether or not handlers threw syntax errors on the way, the entity stack
-- has entities of the same classes as before, in the same order: each handler pops what its node pushed.
pub walk-shapes : (n : Node) (l l' : Listener) → walk n l ≡ done l' → shapes l' ≡ shapes l
unfolding Leaves
walk-shapes n l l' h = subst (Leaves (shapes l) []) h (walk-Leaves n l [])
