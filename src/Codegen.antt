-- ===== src/Codegen.antt =====
-- src/bpp_include/bpp_codegen.cpp: the Bash code of references, calls, casts and the methods that
-- every class has.
pub mod Templates
pub mod Program
pub mod Segments
pub mod SystemMethods
pub mod ClassCode
pub mod Resolve
