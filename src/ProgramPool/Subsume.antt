-- ===== src/ProgramPool/Subsume.antt =====
-- The loop that removes the programs which a new one includes ends, and leaves none of them.
use bashpp.Prelude.{
  ℕ, zero, suc, ◌+◌, ◌-◌, false, List, [], ◌∷◌, Option, none, some, ◌≡◌, ◌<◌, ◌≤◌, refl, sym, ◌∙◌,
  ap, arith, length, get_elem?, ltb, Text, Bool-cases, Option-cases, inl, inr,
}
use bashpp.ProgramPool.{
  Document, Pool, erase_at, is_subsumed, earlier, subsume, remove_program, make_room, push_program,
  create_program, get_program, or_empty,
}
use bashpp.ProgramPool.Indices.{get_elem?-erase_at, shift_up}

-- No program of the first `n` is included in the new one.
abbrev pub NoneSubsumed : Text → Document → ℕ → Pool → Type 0
NoneSubsumed file_path new n p =
    (j : ℕ) (d : Document)
    → j < n
    → get_elem? p.programs j ≡ some d
    → is_subsumed file_path new d ≡ false

length-erase_at_below :
    (i : ℕ) (ds : List Document) → i < length ds → length (erase_at i ds) + 1 ≡ length ds
unfolding erase_at
length-erase_at_below i [] h = absurd (omega arith)
length-erase_at_below zero (d ∷ ds) h = omega arith
length-erase_at_below (suc i) (d ∷ ds) h = omega (arith, length-erase_at_below i ds (omega arith))

remove_program-programs :
    (i : ℕ) (p : Pool) (d : Document)
    → get_elem? p.programs i ≡ some d
    → (remove_program i p).programs ≡ erase_at i p.programs
unfolding remove_program
remove_program-programs i p d e = rw (remove_program, e) refl

earlier-some :
    (i : ℕ) (p : Pool) (d : Document)
    → earlier i p ≡ some d
    → (i + 1 < length p.programs) × (get_elem? p.programs i ≡ some d)
earlier-some i p d e = elim (Bool-cases (ltb (i + 1) (length p.programs))) [
  | inl below ↦ (ground arith, rw below at e)
  | inr beyond ↦ let bad = rw beyond at e in cc
]

get_elem?-total :
    {A : Type 0} (xs : List A) (i : ℕ) → i < length xs → (x : A) × (get_elem? xs i ≡ some x)
get_elem?-total [] i h = absurd (omega arith)
get_elem?-total (x ∷ xs) zero h = (x, refl)
get_elem?-total (x ∷ xs) (suc i) h = get_elem?-total xs i (omega arith)

earlier-none : (i : ℕ) (p : Pool) → earlier i p ≡ none → length p.programs ≤ i + 1
earlier-none i p e = elim (Bool-cases (ltb (i + 1) (length p.programs))) [
  | inr beyond ↦ ground arith
  | inl below ↦
      let read = rw below at e in
      let (x, found) = get_elem?-total p.programs i (ground arith) in absurd (cc)
]

NoneSubsumed-remove :
    (file_path : Text) (new : Document) (i : ℕ) (p : Pool) (d : Document)
    → get_elem? p.programs i ≡ some d
    → NoneSubsumed file_path new i p
    → NoneSubsumed file_path new i (remove_program i p)
NoneSubsumed-remove file_path new i p d e h j d' below found =
    let same : shift_up i j ≡ j = ground arith in
    h j d' below (
      ap (get_elem? p.programs) (sym same)
      ∙ sym (get_elem?-erase_at i j p.programs)
      ∙ ap (λ ds. get_elem? ds j) (sym (remove_program-programs i p d e))
      ∙ found)

NoneSubsumed-pass :
    (file_path : Text) (new : Document) (i : ℕ) (p : Pool) (d : Document)
    → get_elem? p.programs i ≡ some d
    → is_subsumed file_path new d ≡ false
    → NoneSubsumed file_path new i p
    → NoneSubsumed file_path new (i + 1) p
NoneSubsumed-pass file_path new i p d e miss h j d' below found = elim (Bool-cases (ltb j i)) [
  | inl before ↦ h j d' (ground arith) found
  | inr here ↦
      let same : j ≡ i = ground arith in
      let is_d : some d' ≡ some d = sym found ∙ ap (get_elem? p.programs) same ∙ e in
      let equal : d' ≡ d = cc in ap (is_subsumed file_path new) equal ∙ miss
]

subsume-NoneSubsumed :
    (fuel i : ℕ) (file_path : Text) (new : Document) (p : Pool)
    → length p.programs ≤ fuel + i + 1
    → NoneSubsumed file_path new i p
    → NoneSubsumed file_path new
        (length (subsume fuel i file_path new p).programs - 1)
        (subsume fuel i file_path new p)
unfolding subsume
subsume-NoneSubsumed zero i file_path new p bound h = λ j d below found. h j d (omega arith) found
subsume-NoneSubsumed (suc fuel) i file_path new p bound h = elim (Option-cases (earlier i p)) [
  | inl e ↦ rw (subsume, e) (λ j d below found. h j d (omega (arith, earlier-none i p e)) found)
  | inr (d, e) ↦
      let (more, found) = earlier-some i p d e in
      rw (subsume, e)
        (elim (Bool-cases (is_subsumed file_path new d)) [
          | inl hit ↦
              let shorter = ap length (remove_program-programs i p d found) in
              rw hit (
                subsume-NoneSubsumed fuel i file_path new (remove_program i p)
                  (omega (arith, shorter, length-erase_at_below i p.programs (omega arith)))
                  (NoneSubsumed-remove file_path new i p d found h))
          | inr miss ↦ rw miss (
              subsume-NoneSubsumed fuel (i + 1) file_path new p (omega arith)
                (NoneSubsumed-pass file_path new i p d found miss h))
        ])
]

-- When `get_program` parses a new program, no other program is left in the pool whose main file is
-- among the new one's files, but for programs of the requested file itself.
pub get_program-subsumes :
    (parse : Text → (Text → Option Text) → Option Document) (file_path : Text) (new : Document)
    (p : Pool) (j : ℕ) (d : Document)
    → or_empty (p.program_indices file_path) ≡ []
    → parse file_path (make_room p).unsaved_changes ≡ some new
    → j + 1 < length (get_program parse file_path false p).0.programs
    → get_elem? (get_program parse file_path false p).0.programs j ≡ some d
    → is_subsumed file_path new d ≡ false
unfolding get_program create_program
get_program-subsumes parse file_path new p j d unknown parsed below found =
    let pushed = push_program file_path new (make_room p) in
    let last = subsume (length pushed.programs) 0 file_path new pushed in
    let result : (get_program parse file_path false p).0.programs ≡ last.programs =
      rw (get_program, unknown) (rw (create_program, parsed) refl) in
    subsume-NoneSubsumed (length pushed.programs) 0 file_path new pushed (omega arith)
      (λ i e none_below at_i. absurd (omega arith)) j d (omega (arith, ap length result))
      (ap (λ ds. get_elem? ds j) (sym result) ∙ found)
