-- ===== src/CodeBuffers/Strings.antt =====
-- src/bpp_include/bpp_string.cpp: a code entity whose `add_code` never flushes; its main code is the
-- next-line buffer, and its pre-code is what a plain entity would write out.
use bashpp.Prelude.{Bool, ◌++◌, Text}
use bashpp.CodeBuffers.{CodeEntity}

unfoldable pub add_code : Text → Bool → CodeEntity → CodeEntity
add_code text add_newline e = record e { nextline_buffer = e.nextline_buffer ++ text }

unfoldable pub add_code_to_previous_line : Text → CodeEntity → CodeEntity
add_code_to_previous_line text e = record e { code = e.code ++ text }

unfoldable pub add_code_to_next_line : Text → CodeEntity → CodeEntity
add_code_to_next_line text e = record e { postline_buffer = e.postline_buffer ++ text }

unfoldable pub get_code : CodeEntity → Text
get_code e = e.nextline_buffer

unfoldable pub get_pre_code : CodeEntity → Text
get_pre_code e = e.code

unfoldable pub get_post_code : CodeEntity → Text
get_post_code e = e.postline_buffer
