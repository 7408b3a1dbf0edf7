-- ===== src/CodeBuffers.antt =====
-- src/bpp_include/bpp_code_entity.cpp and bpp_string.cpp: the three buffers in which a code entity
-- collects generated shell code. `std::endl` and `std::flush` write nothing; the `ostream` is the
-- `ostringstream` of a fresh entity.
pub mod Strings
pub mod Statements
use bashpp.Prelude.{
  ℕ, Bool, true, false, not, ◌&&◌, ◌||◌, List, [], ◌∷◌, ◌++◌, ◌==◌, if◌then◌else◌, Text, is_empty,
  same_text,
}

pub record CodeEntity : Type 0 where
  pub code : Text
  pub nextline_buffer : Text
  pub postline_buffer : Text
  pub buffers_flushed : Bool

abbrev pub fresh : CodeEntity
fresh = record { code = []; nextline_buffer = []; postline_buffer = []; buffers_flushed = false }

abbrev pub newline : Text
newline = b'\n' ∷ []

-- `code.back() == '\n'`
unfoldable pub ends_in_newline : Text → Bool
ends_in_newline [] = false
ends_in_newline (c ∷ []) = c == b'\n'
ends_in_newline (c ∷ (d ∷ s)) = ends_in_newline (d ∷ s)

-- The first newline of the text exists and stands at its beginning or behind another byte than a
-- backslash; `before` is the byte in front of the text, 0 if there is none.
unfoldable pub has_plain_newline : ℕ → Text → Bool
has_plain_newline before [] = false
has_plain_newline before (c ∷ s) =
    let rest = has_plain_newline c s in if c == b'\n' then not (before == b'\\') else rest

-- A text as a line, as the flushes write it: a newline is added if it has none at its end.
unfoldable pub as_line : Text → Text
as_line s = if ends_in_newline s then s else s ++ newline

-- What a flush writes for a buffer: nothing for an empty one.
unfoldable pub flushed : Text → Text
unfolding as_line
flushed s = if is_empty s then [] else as_line s

unfoldable pub flush_nextline_buffer : CodeEntity → CodeEntity
unfolding flushed
flush_nextline_buffer e = record e {
  code = e.code ++ flushed e.nextline_buffer;
  nextline_buffer = [];
}

unfoldable pub flush_postline_buffer : CodeEntity → CodeEntity
unfolding flushed
flush_postline_buffer e = record e {
  code = e.code ++ flushed e.postline_buffer;
  postline_buffer = [];
}

unfoldable pub flush_code_buffers : CodeEntity → CodeEntity
unfolding flush_nextline_buffer flush_postline_buffer
flush_code_buffers e = record (flush_postline_buffer (flush_nextline_buffer e)) {
  buffers_flushed = true;
}

-- The branch of `add_code` for a text that ends a line.
unfoldable pub write_line : Text → CodeEntity → CodeEntity
unfolding flush_nextline_buffer flush_postline_buffer as_line
write_line text e =
    let e1 = flush_nextline_buffer e in
    let e2 = flush_postline_buffer (record e1 { code = e1.code ++ as_line text }) in
    record e2 { buffers_flushed = true }

unfoldable pub add_code : Text → Bool → CodeEntity → CodeEntity
unfolding write_line
add_code text add_newline e =
    if e.buffers_flushed && same_text text newline
    then e
    else if has_plain_newline 0 text && add_newline
    then write_line text e
    else record e { nextline_buffer = e.nextline_buffer ++ text; buffers_flushed = false }

unfoldable pub add_code_to_previous_line : Text → CodeEntity → CodeEntity
add_code_to_previous_line text e = record e { code = e.code ++ text; buffers_flushed = false }

unfoldable pub add_code_to_next_line : Text → CodeEntity → CodeEntity
add_code_to_next_line text e = record e {
  postline_buffer = e.postline_buffer ++ text;
  buffers_flushed = false;
}

unfoldable pub clear_all_buffers : CodeEntity → CodeEntity
clear_all_buffers e = fresh

unfoldable pub get_code : CodeEntity → Text
get_code e = e.code

unfoldable pub get_pre_code : CodeEntity → Text
get_pre_code e = e.nextline_buffer

unfoldable pub get_post_code : CodeEntity → Text
get_post_code e = e.postline_buffer
