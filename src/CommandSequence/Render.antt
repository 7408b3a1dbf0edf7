-- ===== src/CommandSequence/Render.antt =====
-- What a sequence of pipelines compiles to, against a description of the text as a whole.
use bashpp.Prelude.{
  Bool, true, false, ◌&&◌, List, [], ◌∷◌, ◌++◌, ◌≡◌, ◌≢◌, refl, ◌∙◌, ap, Text, lit, is_empty,
  if◌then◌else◌, append-nil, append_assoc,
}
use bashpp.CommandSequence.{
  CommandSequence, new_sequence, joined_text, add_connective, add_code, add_code_to_previous_line,
  add_code_to_next_line, get_pre_code, get_post_code, get_code,
}

pub record Pipeline : Type 0 where
  pub pre_code : Text
  pub main_code : Text
  pub post_code : Text

-- What the handlers do at the end of a pipeline, and at a connective and the pipeline behind it.
pub add_pipeline : Pipeline → CommandSequence → CommandSequence
unfolding add_code add_code_to_previous_line add_code_to_next_line
add_pipeline p q =
    add_code p.main_code
      (add_code_to_next_line p.post_code (add_code_to_previous_line p.pre_code q))

pub add_rest : List (Bool × Pipeline) → CommandSequence → CommandSequence
add_rest [] q = q
add_rest ((is_and, p) ∷ ps) q = add_rest ps (add_pipeline p (add_connective is_and q))

pub sequence : Pipeline → List (Bool × Pipeline) → CommandSequence
sequence p ps = add_rest ps (add_pipeline p (new_sequence false))

-- What comes in front of a command, and behind it: the cleanup keeps the command's exit status.
abbrev pub setup : Text → Text
setup [] = []
setup (c ∷ s) = (c ∷ s) ++ lit "\n"

abbrev pub cleanup : Text → Text
cleanup [] = []
cleanup (c ∷ s) = lit "\n____ret=$?\n" ++ ((c ∷ s) ++ lit "\nbpp____repeat $____ret")

abbrev pub body : Pipeline → Text
body p = setup p.pre_code ++ (p.main_code ++ cleanup p.post_code)

abbrev pub braced : Pipeline → Text
braced p = lit "{\n" ++ (body p ++ lit "\n}")

-- `&&` for true, `||` for false.
abbrev pub connective : Bool → Text
connective is_and = if is_and then lit " && " else lit " || "

abbrev pub render_rest : List (Bool × Pipeline) → Text
render_rest [] = []
render_rest ((is_and, p) ∷ ps) = connective is_and ++ (braced p ++ render_rest ps)

-- A single pipeline stands by itself; of several, each stands in braces of its own.
abbrev pub render : Pipeline → List (Bool × Pipeline) → Text
render p [] = body p
render p (r ∷ ps) = braced p ++ render_rest (r ∷ ps)

abbrev pub IsCommand : Pipeline → Type 0
IsCommand p = p.main_code ≢ []

-- The state between two pipelines.
abbrev joined_at : Text → Bool → CommandSequence
joined_at text multiple = record {
  code = [];
  nextline_buffer = [];
  postline_buffer = [];
  joined_code = text;
  contains_multiple_commands = multiple;
  perfect_forwarding = false;
}

joined_text-parts :
    (enclose : Bool) (pre main post : Text)
    → joined_text enclose pre main post
      ≡ (if enclose then lit "{\n" else [])
        ++ (setup pre ++ (main ++ (cleanup post ++ (if enclose then lit "\n}" else []))))
unfolding joined_text
joined_text-parts true [] main [] = refl
joined_text-parts true [] main (c ∷ s) = refl
joined_text-parts true (d ∷ t) main [] = refl
joined_text-parts true (d ∷ t) main (c ∷ s) = refl
joined_text-parts false [] main [] = refl
joined_text-parts false [] main (c ∷ s) = refl
joined_text-parts false (d ∷ t) main [] = refl
joined_text-parts false (d ∷ t) main (c ∷ s) = refl

joined_text-braced : (p : Pipeline) → joined_text true p.pre_code p.main_code p.post_code ≡ braced p
joined_text-braced p = joined_text-parts true p.pre_code p.main_code p.post_code ∙ simp append_assoc

joined_text-body : (p : Pipeline) → joined_text false p.pre_code p.main_code p.post_code ≡ body p
joined_text-body p = joined_text-parts false p.pre_code p.main_code p.post_code ∙ simp append-nil

some_text : (a b : Bool) (t : Text) → t ≢ [] → (a && (is_empty t && b)) ≡ false
some_text a b [] ne = absurd (ne refl)
some_text true b (c ∷ t) ne = refl
some_text false b (c ∷ t) ne = refl

first_connective :
    (is_and : Bool) (text : Text)
    → add_connective is_and (joined_at text false)
      ≡ joined_at ((lit "{\n" ++ (text ++ lit "\n}")) ++ connective is_and) true
unfolding add_connective
first_connective is_and text = refl

abbrev pub AllCommands : List (Bool × Pipeline) → Type 0
AllCommands [] = Unit {0}
AllCommands ((is_and, p) ∷ ps) = IsCommand p × AllCommands ps

add_pipeline_at :
    (p : Pipeline) (text : Text) (multiple : Bool)
    → IsCommand p
    → add_pipeline p (joined_at text multiple)
      ≡ joined_at (text ++ joined_text multiple p.pre_code p.main_code p.post_code) multiple
unfolding add_pipeline
add_pipeline_at p text multiple c =
    rw (some_text (is_empty p.pre_code) (is_empty p.post_code) p.main_code c)

connective_at :
    (is_and : Bool) (text : Text)
    → add_connective is_and (joined_at text true) ≡ joined_at (text ++ connective is_and) true
unfolding add_connective
connective_at is_and text = refl

add_rest_at :
    (ps : List (Bool × Pipeline)) (text : Text)
    → AllCommands ps
    → add_rest ps (joined_at text true) ≡ joined_at (text ++ render_rest ps) true
unfolding add_rest
add_rest_at [] text c = rw append-nil
add_rest_at ((is_and, p) ∷ ps) text c =
    ap (λ q. add_rest ps (add_pipeline p q)) (connective_at is_and text)
    ∙ ap (add_rest ps) (add_pipeline_at p (text ++ connective is_and) true c.0)
    ∙ add_rest_at ps _ c.1
    ∙ ap (λ t. joined_at t true) (rw (joined_text-braced p) (simp append_assoc))

sequence_code :
    (p : Pipeline) (ps : List (Bool × Pipeline))
    → IsCommand p
    → AllCommands ps
    → (b : Bool) × (sequence p ps ≡ joined_at (render p ps) b)
unfolding sequence
sequence_code p [] c cs =
    unfold add_rest in
    (false, add_pipeline_at p [] false c ∙ ap (λ t. joined_at t false) (joined_text-body p))
sequence_code p ((is_and, r) ∷ ps) c cs =
    unfold add_rest in
    (
      true,
      ap (λ q. add_rest ps (add_pipeline r (add_connective is_and q)))
            (add_pipeline_at p [] false c ∙ ap (λ t. joined_at t false) (joined_text-body p))
          ∙ ap (λ q. add_rest ps (add_pipeline r q)) (first_connective is_and (body p))
          ∙ ap (add_rest ps) (add_pipeline_at r _ true cs.0)
          ∙ add_rest_at ps _ cs.1
          ∙ ap (λ t. joined_at t true) (rw (joined_text-braced r) (simp append_assoc)),
    )

-- A compiled sequence of commands, none of them empty, is each command's setup, text and cleanup;
-- if there are several, each in braces of its own with the connectives between the braces; and
-- nothing of it is left as pre- or post-code of the whole.
pub get_code-sequence :
    (p : Pipeline) (ps : List (Bool × Pipeline))
    → IsCommand p
    → AllCommands ps
    → (get_code (sequence p ps) ≡ render p ps)
      × (get_pre_code (sequence p ps) ≡ [])
      × (get_post_code (sequence p ps) ≡ [])
unfolding get_code get_pre_code get_post_code
get_code-sequence p ps c cs =
    let (b, e) = sequence_code p ps c cs in (rw e refl, rw e refl, rw e refl)
