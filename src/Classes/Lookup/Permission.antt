-- ===== src/Classes/Lookup/Permission.antt =====
-- Which members code may use.
use bashpp.Prelude.{
  ℕ, List, [], ◌∷◌, Option, none, some, ◌≡◌, ◌↔◌, refl, ◌∙◌, sym, arith, Text, same_text,
  Bool-cases, inl, inr, ap,
}
use bashpp.Classes.Store.{
  Scope, scope_public, scope_protected, scope_private, scope_inaccessible, Store,
}
use bashpp.Classes.Members.{find_method, methods_of}
use bashpp.Classes.Lookup.{Access, not_found, member, check_scope, get_method_in, get_method}

-- A public member is open to all, a protected or private one to its class, a hidden one to nobody.
abbrev pub Permits : Scope → ℕ → Option ℕ → Type 0
Permits scope_public c context = Unit {0}
Permits scope_protected c context = context ≡ some c
Permits scope_private c context = context ≡ some c
Permits scope_inaccessible c context = ⊥

member_is :
    (scope : Scope) (c : ℕ) (context : Option ℕ) (k m : ℕ)
    → check_scope scope c context k ≡ member m
    → k ≡ m
member_is scope_public c context k m e = cc
member_is scope_protected c none k m e = cc
member_is scope_protected c (some j) k m e = ground arith
member_is scope_private c none k m e = cc
member_is scope_private c (some j) k m e = ground arith
member_is scope_inaccessible c context k m e = cc

check_scope_iff :
    (scope : Scope) (c : ℕ) (context : Option ℕ) (m : ℕ)
    → (check_scope scope c context m ≡ member m) ↔ Permits scope c context
check_scope_iff scope_public c context m = ((λ e. tt), λ p. refl)
check_scope_iff scope_protected c none m = (λ e. cc, λ p. cc)
check_scope_iff scope_protected c (some k) m = (λ e. ground arith, λ p. ground arith)
check_scope_iff scope_private c none m = (λ e. cc, λ p. cc)
check_scope_iff scope_private c (some k) m = (λ e. ground arith, λ p. ground arith)
check_scope_iff scope_inaccessible c context m = (λ e. cc, λ p. absurd p)

abbrev checked : Store → ℕ → Option ℕ → Option ℕ → Access
checked s c context none = not_found
checked s c context (some m) = check_scope (s.method m).scope c context m

get_method_in-find_method :
    (s : Store) (n : Text) (c : ℕ) (context : Option ℕ) (ms : List ℕ)
    → get_method_in s n c context ms ≡ checked s c context (find_method s n ms)
unfolding get_method_in find_method
get_method_in-find_method s n c context [] = refl
get_method_in-find_method s n c context (m ∷ ms) =
    elim (Bool-cases (same_text (s.method m).name n)) [
      | inl e ↦ rw e
      | inr e ↦ rw e (get_method_in-find_method s n c context ms)
    ]

pub get_method-find_method :
    (s : Store) (n : Text) (c : ℕ) (context : Option ℕ)
    → get_method s n c context ≡ checked s c context (find_method s n (methods_of s c))
unfolding get_method
get_method-find_method s n c context = get_method_in-find_method s n c context (methods_of s c)

checked_iff :
    (s : Store) (c : ℕ) (context : Option ℕ) (m : ℕ) (o : Option ℕ)
    → (checked s c context o ≡ member m) ↔ ((o ≡ some m) × Permits (s.method m).scope c context)
checked_iff s c context m none = (λ e. cc, λ p. cc)
checked_iff s c context m (some k) = (
  λ e.
      let same : k ≡ m = member_is (s.method k).scope c context k m e in
      (ap some same, (check_scope_iff (s.method m).scope c context m).0 (rw same at e)),
  λ p.
      let same : k ≡ m = cc p.0 in rw same ((check_scope_iff (s.method m).scope c context m).1 p.1),
)

-- A use of a method from some class finds that method exactly if it is the first one of that name and
-- its scope permits the use.
pub get_method_iff :
    (s : Store) (n : Text) (c : ℕ) (context : Option ℕ) (m : ℕ)
    → (get_method s n c context ≡ member m)
      ↔ ((find_method s n (methods_of s c) ≡ some m) × Permits (s.method m).scope c context)
get_method_iff s n c context m =
    let e = get_method-find_method s n c context in
    let iff = checked_iff s c context m (find_method s n (methods_of s c)) in
    ((λ h. iff.0 (sym e ∙ h)), λ p. e ∙ iff.1 p)
