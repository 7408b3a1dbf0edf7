-- ===== src/Ast/Children.antt =====
-- Adding children one by one or all at once, and what the list of children never holds.
use bashpp.Prelude.{
  true, false, List, [], ◌∷◌, ◌++◌, Option, none, some, ◌≡◌, refl, sym, subst, ◌⊎◌, ◌∙◌, ap,
  if◌then◌else◌, Text, last, Bool-cases, inl, inr,
}
use bashpp.Ast.{Node, raw_text, other, append_text, is_raw_text, add_child, add_each, add_children}

-- `addChild` for each of the nodes
pub add_each_child : List Node → List (Option Node) → List Node
add_each_child children [] = children
add_each_child children (c ∷ childs) = add_each_child (add_child children c) childs

last-append : (ns : List Node) (n : Node) → last (ns ++ n ∷ []) ≡ some n
unfolding last
last-append [] n = refl
last-append (m ∷ []) n = refl
last-append (m ∷ (k ∷ ns)) n = last-append (k ∷ ns) n

is_raw_text-append_text :
    (t : Text) (ns : List Node)
    → is_raw_text (last ns) ≡ true
    → is_raw_text (last (append_text t ns)) ≡ true
unfolding last append_text
is_raw_text-append_text t [] e = e
is_raw_text-append_text t (raw_text s ∷ []) e = refl
is_raw_text-append_text t (other n ∷ []) e = e
is_raw_text-append_text t (m ∷ (k ∷ [])) e = is_raw_text-append_text t (k ∷ []) e
is_raw_text-append_text t (m ∷ (k ∷ (l ∷ ns))) e = is_raw_text-append_text t (k ∷ (l ∷ ns)) e

add_each-add_each_child :
    (children : List Node) (childs : List (Option Node))
    → add_each (is_raw_text (last children)) children childs ≡ add_each_child children childs
unfolding add_each add_each_child add_child
add_each-add_each_child children [] = refl
add_each-add_each_child children (none ∷ childs) = add_each-add_each_child children childs
add_each-add_each_child children (some (other n) ∷ childs) =
    ap (λ b. add_each b (children ++ other n ∷ []) childs)
      (sym (ap is_raw_text (last-append children (other n))))
    ∙ add_each-add_each_child (children ++ other n ∷ []) childs
add_each-add_each_child children (some (raw_text t) ∷ childs) =
    ap (λ b. add_each b added childs) (sym ends) ∙ add_each-add_each_child added childs
  where
    added : List Node
    added =
        if is_raw_text (last children) then append_text t children else children ++ raw_text t ∷ []

    ends : is_raw_text (last added) ≡ true
    ends = elim (Bool-cases (is_raw_text (last children))) [
      | inl e ↦ rw e (is_raw_text-append_text t children e)
      | inr e ↦ rw e (ap is_raw_text (last-append children (raw_text t)))
    ]

-- `addChildren`, which remembers whether the last child is raw text, adds what `addChild` adds one by
-- one.
pub add_children-add_each_child :
    (children : List Node) (childs : List (Option Node))
    → add_children children childs ≡ add_each_child children childs
unfolding add_children
add_children-add_each_child children childs = add_each-add_each_child children childs

-- No raw text stands next to raw text.
abbrev pub IsMerged : List Node → Type 0
IsMerged [] = Unit {0}
IsMerged (n ∷ []) = Unit {0}
IsMerged (raw_text s ∷ (raw_text t ∷ ns)) = ⊥
IsMerged (raw_text s ∷ (other n ∷ ns)) = IsMerged (other n ∷ ns)
IsMerged (other m ∷ (n ∷ ns)) = IsMerged (n ∷ ns)

IsMerged-append :
    (ns : List Node) (n : Node)
    → IsMerged ns
    → (is_raw_text (last ns) ≡ false) ⊎ (is_raw_text (some n) ≡ false)
    → IsMerged (ns ++ n ∷ [])
unfolding last
IsMerged-append [] n h e = tt
IsMerged-append (other m ∷ []) n h e = tt
IsMerged-append (raw_text s ∷ []) (other n) h e = tt
IsMerged-append (raw_text s ∷ []) (raw_text t) h e = elim e [ inl a ↦ cc | inr b ↦ cc ]
IsMerged-append (raw_text s ∷ (raw_text t ∷ ns)) n h e = absurd h
IsMerged-append (raw_text s ∷ (other m ∷ ns)) n h e = IsMerged-append (other m ∷ ns) n h e
IsMerged-append (other k ∷ (m ∷ ns)) n h e = IsMerged-append (m ∷ ns) n h e

IsMerged-append_text : (t : Text) (ns : List Node) → IsMerged ns → IsMerged (append_text t ns)
unfolding append_text
IsMerged-append_text t [] h = tt
IsMerged-append_text t (n ∷ []) h = tt
IsMerged-append_text t (raw_text s ∷ (raw_text u ∷ ns)) h = absurd h
IsMerged-append_text t (raw_text s ∷ (other m ∷ [])) h = tt
IsMerged-append_text t (raw_text s ∷ (other m ∷ (k ∷ ns))) h =
    IsMerged-append_text t (other m ∷ (k ∷ ns)) h
IsMerged-append_text t (other k ∷ (raw_text s ∷ [])) h = tt
IsMerged-append_text t (other k ∷ (other m ∷ [])) h = tt
IsMerged-append_text t (other k ∷ (m ∷ (l ∷ ns))) h = IsMerged-append_text t (m ∷ (l ∷ ns)) h

add_child-IsMerged : (ns : List Node) (c : Option Node) → IsMerged ns → IsMerged (add_child ns c)
unfolding add_child
add_child-IsMerged ns none h = h
add_child-IsMerged ns (some (other n)) h = IsMerged-append ns (other n) h (inr refl)
add_child-IsMerged ns (some (raw_text t)) h = elim (Bool-cases (is_raw_text (last ns))) [
  | inl e ↦ rw e (IsMerged-append_text t ns h)
  | inr e ↦ rw e (IsMerged-append ns (raw_text t) h (inl e))
]

add_each_child-IsMerged :
    (ns : List Node) (childs : List (Option Node))
    → IsMerged ns
    → IsMerged (add_each_child ns childs)
unfolding add_each_child
add_each_child-IsMerged ns [] h = h
add_each_child-IsMerged ns (c ∷ childs) h =
    add_each_child-IsMerged (add_child ns c) childs (add_child-IsMerged ns c h)

-- However children are added to a node in which no two raw texts are adjacent, none are afterwards.
pub add_children-IsMerged :
    (children : List Node) (childs : List (Option Node))
    → IsMerged children
    → IsMerged (add_children children childs)
add_children-IsMerged children childs h =
    subst (λ ns. IsMerged ns) (sym (add_children-add_each_child children childs))
      (add_each_child-IsMerged children childs h)
