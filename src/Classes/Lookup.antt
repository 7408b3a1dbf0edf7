-- ===== src/Classes/Lookup.antt =====
-- `get_method` and `get_datamember` of bpp_class.cpp, which look at the scope of a member and at the
-- class from which it is used. `bpp::inaccessible_method` is a result of its own.
pub mod Permission
use bashpp.Prelude.{
  ℕ, Bool, List, [], ◌∷◌, Option, none, some, ◌==◌, if◌then◌else◌, Text, same_text,
}
use bashpp.Classes.Store.{
  Scope, scope_public, scope_protected, scope_private, scope_inaccessible, Store,
}
use bashpp.Classes.Members.{methods_of, datamembers_of}

pub data Access : Type 0 where
  not_found inaccessible : Access
  member : ℕ → Access

-- The tests on the scope of member `m` of class `c`; `context` is the class of the code that uses it.
abbrev pub check_scope : Scope → ℕ → Option ℕ → ℕ → Access
check_scope scope_public c context m = member m
check_scope scope_protected c none m = inaccessible
check_scope scope_protected c (some k) m = if k == c then member m else inaccessible
check_scope scope_private c none m = inaccessible
check_scope scope_private c (some k) m = if k == c then member m else inaccessible
check_scope scope_inaccessible c context m = inaccessible

pub get_method_in : Store → Text → ℕ → Option ℕ → List ℕ → Access
get_method_in s name c context [] = not_found
get_method_in s name c context (m ∷ ms) =
    if same_text (s.method m).name name
    then check_scope (s.method m).scope c context m
    else get_method_in s name c context ms

unfoldable pub get_method : Store → Text → ℕ → Option ℕ → Access
unfolding get_method_in
get_method s name c context = get_method_in s name c context (methods_of s c)

pub get_datamember_in : Store → Text → ℕ → Option ℕ → List ℕ → Access
get_datamember_in s name c context [] = not_found
get_datamember_in s name c context (d ∷ ds) =
    if same_text (s.datamember d).name name
    then check_scope (s.datamember d).scope c context d
    else get_datamember_in s name c context ds

unfoldable pub get_datamember : Store → Text → ℕ → Option ℕ → Access
unfolding get_datamember_in
get_datamember s name c context = get_datamember_in s name c context (datamembers_of s c)
