-- ===== src/Classes/Inherit.antt =====
-- `bpp_class::inherit(std::shared_ptr<bpp_class>)`: the methods and data members of the parent are
-- not copied, the child's vectors hold the parent's own objects.
pub mod Aliasing
use bashpp.Prelude.{ℕ, Bool, true, false, List, [], ◌∷◌, ◌++◌, if◌then◌else◌, same_text}
use bashpp.Classes.Store.{
  Scope, scope_private, scope_inaccessible, Method, Datamember, Class, Store, write_datamember,
  write_class, modify_method,
}
use bashpp.Classes.Members.{to_primitive, methods_of, datamembers_of, add_method}

-- `if (scope == SCOPE_PRIVATE) set_scope(SCOPE_INACCESSIBLE)`
abbrev pub hide_private : Scope → Scope
hide_private scope_private = scope_inaccessible
hide_private scope = scope

-- What the loop writes to a method of the parent before it adds it.
abbrev pub pass_down : Method → Method
pass_down m = record m { scope = hide_private m.scope; inherited = true }

-- One round of the loop over the methods.
pub inherit_method : ℕ → ℕ → Store → Store
inherit_method child m s =
    if same_text (s.method m).name to_primitive
    then s
    else (add_method child m (modify_method pass_down m s)).0

pub inherit_methods : ℕ → List ℕ → Store → Store
unfolding inherit_method
inherit_methods child [] s = s
inherit_methods child (m ∷ ms) s = inherit_methods child ms (inherit_method child m s)

pub inherit_datamembers : ℕ → List ℕ → Store → Store
inherit_datamembers child [] s = s
inherit_datamembers child (d ∷ ds) s =
    let s1 =
      write_class s child
        (record (s.class_at child) { datamembers = datamembers_of s child ++ d ∷ [] }) in
    inherit_datamembers child ds (
      write_datamember s1 d
        (record (s1.datamember d) { scope = hide_private (s1.datamember d).scope }))

pub inherit_parents : ℕ → ℕ → Store → Store
inherit_parents child parent s = write_class s child (record (s.class_at child) {
  parents = (s.class_at child).parents ++ ((s.class_at parent).parents ++ parent ∷ []);
})

unfoldable pub inherit : ℕ → ℕ → Store → Store
unfolding inherit_methods inherit_datamembers inherit_parents
inherit child parent s =
    let s1 = inherit_methods child (methods_of s parent) s in
    let s2 = inherit_datamembers child (datamembers_of s1 parent) s1 in
    inherit_parents child parent s2
