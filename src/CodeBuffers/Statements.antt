-- ===== src/CodeBuffers/Statements.antt =====
-- Statements with pre- and post-code, as the listener's handlers hand them to a code entity.
use bashpp.Prelude.{
  ℕ, Bool, true, false, List, [], ◌∷◌, ◌++◌, ◌≡◌, ◌≢◌, refl, sym, ◌∙◌, ap, arith, Text, append-nil,
  append_assoc, All, contains_byte,
}
use bashpp.CodeBuffers.{
  CodeEntity, newline, ends_in_newline, has_plain_newline, flushed, write_line, add_code,
  add_code_to_previous_line, add_code_to_next_line,
}

-- The code that resolves what a statement mentions, the statement, and the code that cleans up.
pub record Statement : Type 0 where
  pub pre_code : Text
  pub code : Text
  pub post_code : Text

-- `exitBashPipeline` and its like, and the newline token that ends the line.
pub emit : Statement → CodeEntity → CodeEntity
unfolding add_code add_code_to_previous_line add_code_to_next_line
emit s e = add_code newline true (
    add_code s.code true
      (add_code_to_next_line s.post_code (add_code_to_previous_line s.pre_code e)))

pub emit_all : List Statement → CodeEntity → CodeEntity
emit_all [] e = e
emit_all (s ∷ ss) e = emit_all ss (emit s e)

-- The block of one statement: pre-code, the statement on its own line, an empty line, post-code.
abbrev pub block : Statement → Text
block s = s.pre_code ++ (s.code ++ (newline ++ (newline ++ flushed s.post_code)))

abbrev pub blocks : List Statement → Text
blocks [] = []
blocks (s ∷ ss) = block s ++ blocks ss

-- A statement on one line.
abbrev pub IsOneLine : Statement → Type 0
IsOneLine s = (s.code ≢ []) × (contains_byte b'\n' s.code ≡ false)

has_plain_newline-contains_byte :
    (before : ℕ) (t : Text) → contains_byte b'\n' t ≡ false → has_plain_newline before t ≡ false
unfolding has_plain_newline contains_byte
has_plain_newline-contains_byte before [] h = refl
has_plain_newline-contains_byte before (c ∷ t) h =
    ground (arith, has_plain_newline-contains_byte c t)

ends_in_newline-contains_byte :
    (t : Text) → contains_byte b'\n' t ≡ false → ends_in_newline t ≡ false
unfolding ends_in_newline contains_byte
ends_in_newline-contains_byte [] h = refl
ends_in_newline-contains_byte (c ∷ []) h = ground arith
ends_in_newline-contains_byte (c ∷ (d ∷ t)) h =
    ground (arith, ends_in_newline-contains_byte (d ∷ t))

-- Nothing waits in the buffers.
abbrev pub IsFlushed : CodeEntity → Type 0
IsFlushed e = (e.nextline_buffer ≡ []) × (e.postline_buffer ≡ [])

flushed-one_line : (t : Text) → t ≢ [] → contains_byte b'\n' t ≡ false → flushed t ≡ t ++ newline
unfolding flushed
flushed-one_line [] ne one = absurd (ne refl)
flushed-one_line (c ∷ t) ne one = rw (ends_in_newline-contains_byte (c ∷ t) one)

write_line-newline :
    (e : CodeEntity)
    → (write_line newline e).code
      ≡ e.code ++ (flushed e.nextline_buffer ++ (newline ++ flushed e.postline_buffer))
unfolding write_line ends_in_newline
write_line-newline e = simp append_assoc

write_line-IsFlushed : (t : Text) (e : CodeEntity) → IsFlushed (write_line t e)
unfolding write_line
write_line-IsFlushed t e = (refl, refl)

add_code-newline :
    (e : CodeEntity) → e.buffers_flushed ≡ false → add_code newline true e ≡ write_line newline e
unfolding add_code has_plain_newline
add_code-newline e h = rw (h, add_code)

-- Adding a text with no newline only fills the next-line buffer.
add_code_one_line :
    (t : Text) (e : CodeEntity)
    → contains_byte b'\n' t ≡ false
    → e.buffers_flushed ≡ false
    → add_code t true e
      ≡ record e { nextline_buffer = e.nextline_buffer ++ t; buffers_flushed = false }
unfolding add_code
add_code_one_line t e one h = rw h (rw (has_plain_newline-contains_byte 0 t one))

-- The entity with nothing in its buffers, and after the pre-code, the statement and the post-code.
abbrev empty_at : Text → Bool → CodeEntity
empty_at out flag = record {
  code = out;
  nextline_buffer = [];
  postline_buffer = [];
  buffers_flushed = flag;
}

abbrev filled_at : Text → Statement → CodeEntity
filled_at out s = record {
  code = out ++ s.pre_code;
  nextline_buffer = s.code;
  postline_buffer = s.post_code;
  buffers_flushed = false;
}

emit-write_line :
    (s : Statement) (out : Text) (flag : Bool)
    → IsOneLine s
    → emit s (empty_at out flag) ≡ write_line newline (filled_at out s)
unfolding emit
emit-write_line s out flag h =
    ap (add_code newline true)
      (add_code_one_line s.code (record (filled_at out s) { nextline_buffer = [] }) h.1 refl)
    ∙ add_code-newline (filled_at out s) refl

is_empty_at : (e : CodeEntity) → IsFlushed e → e ≡ empty_at e.code e.buffers_flushed
is_empty_at e f = ground arith

emit-block :
    (s : Statement) (e : CodeEntity)
    → IsOneLine s
    → IsFlushed e
    → ((emit s e).code ≡ e.code ++ block s) × IsFlushed (emit s e)
emit-block s e h f =
    let step : emit s e ≡ write_line newline (filled_at e.code s) =
      ap (emit s) (is_empty_at e f) ∙ emit-write_line s e.code e.buffers_flushed h in
    let written : (write_line newline (filled_at e.code s)).code ≡ e.code ++ block s =
      write_line-newline (filled_at e.code s)
      ∙ simp (flushed-one_line s.code h.0 h.1, append_assoc) in
    (ap (λ x. x.code) step ∙ written, rw step (write_line-IsFlushed newline (filled_at e.code s)))

-- From empty buffers, the code written for a sequence of one-line statements is the blocks of the
-- statements, one after the other: each statement's pre-code stands directly before it and its
-- post-code behind it, before the pre-code of the next one; and nothing is left in the buffers.
pub emit_all-blocks :
    (ss : List Statement) (e : CodeEntity)
    → All IsOneLine ss
    → IsFlushed e
    → ((emit_all ss e).code ≡ e.code ++ blocks ss) × IsFlushed (emit_all ss e)
unfolding emit_all
emit_all-blocks [] e h f = (sym (append-nil e.code), f)
emit_all-blocks (s ∷ ss) e h f =
    let (written, clear) = emit-block s e h.0 f in
    let (rest, clear') = emit_all-blocks ss (emit s e) h.1 clear in
    (rest ∙ ap (λ t. t ++ blocks ss) written ∙ append_assoc e.code (block s) (blocks ss), clear')
