-- ===== src/Classes/Inherit/Aliasing.antt =====
-- What inheriting does to the parent, whose methods the child shares.
use bashpp.Prelude.{
  ℕ, false, List, [], ◌∷◌, some, ◌≡◌, ◌≢◌, ◌⊎◌, inl, inr, refl, ◌∙◌, ap, arith, Text, same_text,
  same_text_iff, IsIn, Bool-cases,
}
use bashpp.Classes.Store.{scope_private, scope_inaccessible, Store, modify_method}
use bashpp.Classes.Members.{find_method, methods_of, datamembers_of, to_primitive}
use bashpp.Classes.Members.Frame.{Keeps, Keeps-refl, add_method-Keeps}
use bashpp.Classes.Members.Clears.{find_method-ext, SameNames}
use bashpp.Classes.Inherit.{
  pass_down, inherit_method, inherit_methods, inherit_datamembers, inherit_parents, inherit,
}
use bashpp.Classes.Lookup.{get_method, member, inaccessible}
use bashpp.Classes.Lookup.Permission.{get_method-find_method, get_method_iff}

-- Every name stays, and so do the other classes.
record Shares (child : ℕ) (s t : Store) : Type 0 where
  names : SameNames s t
  others : (k : ℕ) → k ≢ child → methods_of t k ≡ methods_of s k
  hidden :
      (k : ℕ) → (s.method k).scope ≡ scope_inaccessible → (t.method k).scope ≡ scope_inaccessible
  stays_private :
      (k : ℕ)
      → (s.method k).scope ≡ scope_private
      → ((t.method k).scope ≡ scope_private) ⊎ ((t.method k).scope ≡ scope_inaccessible)

Shares-trans : {child : ℕ} {s t u : Store} → Shares child s t → Shares child t u → Shares child s u
Shares-trans p q = record {
  names = λ k. q.names k ∙ p.names k;
  others = λ k ne. q.others k ne ∙ p.others k ne;
  hidden = λ k e. q.hidden k (p.hidden k e);
  stays_private = λ k e. elim (p.stays_private k e) [
    | inl still ↦ q.stays_private k still
    | inr gone ↦ inr (q.hidden k gone)
  ];
}

pass_down-Shares : (child m : ℕ) (s : Store) → Shares child s (modify_method pass_down m s)
pass_down-Shares child m s = record {
  names = λ k. ground arith;
  others = λ k ne. refl;
  hidden = λ k e. ground arith;
  stays_private = λ k e. ground arith;
}

Keeps-Shares : {child : ℕ} {s t : Store} → Keeps child s t → Shares child s t
Keeps-Shares p = record {
  names = p.names;
  others = λ k ne. ap (λ c. c.methods) (p.others k ne);
  hidden = λ k e. p.scopes k ∙ e;
  stays_private = λ k e. inl (p.scopes k ∙ e);
}

inherit_method-Shares : (child m : ℕ) (s : Store) → Shares child s (inherit_method child m s)
unfolding inherit_method
inherit_method-Shares child m s = elim (Bool-cases (same_text (s.method m).name to_primitive)) [
  | inl e ↦ rw e (Keeps-Shares (Keeps-refl child s))
  | inr e ↦ rw e (
      Shares-trans (pass_down-Shares child m s)
        (Keeps-Shares (add_method-Keeps child m (modify_method pass_down m s))))
]

-- The method's own round.
inherit_method-hides :
    (child m : ℕ) (s : Store)
    → same_text (s.method m).name to_primitive ≡ false
    → ((s.method m).scope ≡ scope_private) ⊎ ((s.method m).scope ≡ scope_inaccessible)
    → ((inherit_method child m s).method m).scope ≡ scope_inaccessible
unfolding inherit_method
inherit_method-hides child m s e h =
    rw e ((add_method-Keeps child m (modify_method pass_down m s)).scopes m ∙ ground arith)

inherit_methods-Shares :
    (child : ℕ) (ms : List ℕ) (s : Store) → Shares child s (inherit_methods child ms s)
unfolding inherit_methods
inherit_methods-Shares child [] s = Keeps-Shares (Keeps-refl child s)
inherit_methods-Shares child (m ∷ ms) s =
    Shares-trans (inherit_method-Shares child m s)
      (inherit_methods-Shares child ms (inherit_method child m s))

inherit_methods-hides :
    (child m : ℕ) (ms : List ℕ) (s : Store)
    → IsIn m ms
    → same_text (s.method m).name to_primitive ≡ false
    → ((s.method m).scope ≡ scope_private) ⊎ ((s.method m).scope ≡ scope_inaccessible)
    → ((inherit_methods child ms s).method m).scope ≡ scope_inaccessible
unfolding inherit_methods
inherit_methods-hides child m [] s i e h = elim i [ ]
inherit_methods-hides child m (k ∷ ms) s (inl same) e h =
    (inherit_methods-Shares child ms (inherit_method child k s)).hidden m
      (rw (← same) (inherit_method-hides child m s e h))
inherit_methods-hides child m (k ∷ ms) s (inr later) e h =
    let step = inherit_method-Shares child k s in
    inherit_methods-hides child m ms (inherit_method child k s) later (rw (step.names m) e)
      (elim h [ inl p ↦ step.stays_private m p | inr p ↦ inr (step.hidden m p) ])

-- The data members and the parents leave the methods alone.
inherit_datamembers-Shares :
    (child : ℕ) (ds : List ℕ) (s : Store) → Shares child s (inherit_datamembers child ds s)
unfolding inherit_datamembers
inherit_datamembers-Shares child [] s = Keeps-Shares (Keeps-refl child s)
inherit_datamembers-Shares child (d ∷ ds) s =
    Shares-trans
      (record {
        names = λ k. refl;
        others = λ k ne. ground arith;
        hidden = λ k e. e;
        stays_private = λ k e. inl e;
      })
      (inherit_datamembers-Shares child ds _)

inherit-Shares :
    (child parent : ℕ) (s : Store)
    → Shares child (inherit_methods child (methods_of s parent) s) (inherit child parent s)
unfolding inherit inherit_parents
inherit-Shares child parent s =
    Shares-trans
      (inherit_datamembers-Shares child
        (datamembers_of (inherit_methods child (methods_of s parent) s) parent)
        (inherit_methods child (methods_of s parent) s))
      (record {
        names = λ k. refl;
        others = λ k ne. ground arith;
        hidden = λ k e. e;
        stays_private = λ k e. inl e;
      })

find_method-mem :
    (s : Store) (n : Text) (m : ℕ) (ms : List ℕ)
    → find_method s n ms ≡ some m
    → IsIn m ms × ((s.method m).name ≡ n)
unfolding find_method
find_method-mem s n m [] e = cc
find_method-mem s n m (k ∷ ms) e =
    ground (arith, same_text_iff (s.method k).name n, find_method-mem s n m ms)

-- Before a class is inherited from, its own code may use its private method, unless that is named
-- `toPrimitive`; once some other class has inherited from it, the same use is answered as inaccessible.
pub get_method-inherit :
    (child parent m : ℕ) (n : Text) (s : Store)
    → parent ≢ child
    → find_method s n (methods_of s parent) ≡ some m
    → n ≢ to_primitive
    → (s.method m).scope ≡ scope_private
    → (get_method s n parent (some parent) ≡ member m)
      × (get_method (inherit child parent s) n parent (some parent) ≡ inaccessible)
get_method-inherit child parent m n s ne found not_default private =
    let t = inherit child parent s in
    let ms = methods_of s parent in
    let (listed, named) = find_method-mem s n m ms found in
    let plain : same_text (s.method m).name to_primitive ≡ false =
      ground (arith, same_text_iff (s.method m).name to_primitive) in
    let loop = inherit_methods-Shares child ms s in
    let rest = inherit-Shares child parent s in
    let all = Shares-trans loop rest in
    let hid = rest.hidden m (inherit_methods-hides child m ms s listed plain (inl private)) in
    let found' : find_method t n (methods_of t parent) ≡ some m =
      ap (find_method t n) (all.others parent ne) ∙ find_method-ext s t n ms all.names ∙ found in
    (
      (get_method_iff s n parent (some parent) m).1 (found, rw private refl),
      get_method-find_method t n parent (some parent) ∙ rw found' (rw hid refl),
    )
