-- ===== src/Codegen/SystemMethods/Nesting.antt =====
-- The code for a new object is generated whenever objects nest to a finite depth.
use bashpp.Prelude.{
  ℕ, zero, suc, ◌<◌, Bool, true, false, List, [], ◌∷◌, Option, none, some, ◌≡◌, ◌⊎◌, inl, inr, refl,
  sym, ◌∙◌, arith, Text, Bool-cases, Option-cases, All,
}
use bashpp.Classes.Store.{Store, Datamember}
use bashpp.Classes.Members.{datamembers_of}
use bashpp.Codegen.Program.{Program}
use bashpp.Codegen.SystemMethods.{
  Generated, field, new_object, new_member, each_member, generate_code_for_new_method,
}

-- A member object's class nests less deep than `n`.
abbrev pub IsShallow : (ℕ → ℕ) → ℕ → Datamember → Type 0
IsShallow depth n d =
    (d.pointer ≡ true) ⊎ ((d.type ≡ none) ⊎ ((k : ℕ) × (d.type ≡ some k) × (depth k < n)))

-- `depth` bounds how deep the objects of each class are nested in one another.
abbrev pub IsDepth : Store → (ℕ → ℕ) → Type 0
IsDepth s depth =
    (c : ℕ) → All (λ d. IsShallow depth (depth c) (s.datamember d)) (datamembers_of s c)

abbrev pub is_some {ℓ} : {A : Type ℓ} → Option A → Bool
is_some none = false
is_some (some x) = true

-- Some code is generated.
abbrev pub Succeeds : Generated → Type 0
Succeeds g = is_some g ≡ true

result : (g : Generated) → Succeeds g → (r : Text × Program) × (g ≡ some r)
result none h = cc
result (some r) h = (r, refl)

new_object-Succeeds :
    (s : Store) (inlined : Text → ℕ → Program → Generated) (address : Text) (inline_new : Bool)
    (d : Datamember) (c : ℕ) (p : Program)
    → ((a : Text) (q : Program) → Succeeds (inlined a c q))
    → Succeeds (new_object s inlined address inline_new d c p)
unfolding new_object
new_object-Succeeds s inlined address false d c p h = refl
new_object-Succeeds s inlined address true d c p h =
    let ((body, p'), e) = result (inlined (field address d) c p) (h (field address d) p) in
    rw (new_object, e) refl

new_member-Succeeds :
    (s : Store) (inlined : Text → ℕ → Program → Generated) (address : Text) (inline_new : Bool)
    (depth : ℕ → ℕ) (n : ℕ) (d : Datamember) (p : Program)
    → IsShallow depth n d
    → ((c : ℕ) (a : Text) (q : Program) → depth c < n → Succeeds (inlined a c q))
    → Succeeds (new_member s inlined address inline_new d p)
unfolding new_member
new_member-Succeeds s inlined address inline_new depth n d p shallow h =
    elim (Option-cases d.type) [
      | inl primitive ↦ rw (new_member, primitive) refl
      | inr (c, object) ↦
          rw (new_member, object)
            (elim (Bool-cases d.pointer) [
              | inl pointer ↦ rw pointer refl
              | inr nested ↦ rw nested (
                  new_object-Succeeds s inlined address inline_new d c p
                    (λ a q. h c a q (below c object nested shallow)))
            ])
    ]
  where
    below : (c : ℕ) → d.type ≡ some c → d.pointer ≡ false → IsShallow depth n d → depth c < n
    below c object nested (inl pointer) = cc
    below c object nested (inr (inl primitive)) = cc
    below c object nested (inr (inr (k, is_k, deep))) =
        let both : some c ≡ some k = sym object ∙ is_k in let same : c ≡ k = cc in rw same deep

each_member-Succeeds :
    (s : Store) (body : Datamember → Program → Generated) (ds : List ℕ) (p : Program)
    → All (λ d. (q : Program) → Succeeds (body (s.datamember d) q)) ds
    → Succeeds (each_member s body ds p)
unfolding each_member
each_member-Succeeds s body [] p h = refl
each_member-Succeeds s body (d ∷ ds) p h =
    let ((code, p'), e) = result (body (s.datamember d) p) (h.0 p) in
    let ((rest, p''), f) =
      result (each_member s body ds p') (each_member-Succeeds s body ds p' h.1) in
    rw (each_member, e) (rw f refl)

All-map : {P Q : ℕ → Type 0} (ds : List ℕ) → ((d : ℕ) → P d → Q d) → All P ds → All Q ds
All-map [] f h = tt
All-map (d ∷ ds) f h = (f d h.0, All-map ds f h.1)

-- If every class has a depth above that of the classes of its member objects, then a fuel above the
-- depth of a class is enough for the code that makes an object of it.
pub generate_code_for_new_method-Succeeds :
    (fuel : ℕ) (s : Store) (depth : ℕ → ℕ) (inline_new : Bool) (address : Text) (c : ℕ)
    (p : Program)
    → IsDepth s depth
    → depth c < fuel
    → Succeeds (generate_code_for_new_method fuel s inline_new address c p)
unfolding generate_code_for_new_method
generate_code_for_new_method-Succeeds zero s depth inline_new address c p v h = absurd (omega arith)
generate_code_for_new_method-Succeeds (suc fuel) s depth inline_new address c p v h =
    let inlined =
      λ (a : Text) (k : ℕ) (q : Program). generate_code_for_new_method fuel s true a k q in
    let body = new_member s inlined address inline_new in
    let every =
      All-map (datamembers_of s c)
        (λ d shallow q.
          new_member-Succeeds s inlined address inline_new depth (depth c) (s.datamember d) q
            shallow
            (λ k a r deeper.
              generate_code_for_new_method-Succeeds fuel s depth true a k r v (omega arith)))
        (v c) in
    let ((members, p'), e) =
      result (each_member s body (datamembers_of s c) p)
        (each_member-Succeeds s body (datamembers_of s c) p every) in
    rw (generate_code_for_new_method, e) refl
