-- ===== src/Lib.antt =====
-- Bash++, the compiler from Bash with classes to Bash: its core data structures, the classes, the
-- generation of code and the language server's bookkeeping.
--
-- The parts and their files
-- The listener walks the syntax tree, keeps classes and objects, and hands generated code to code
-- entities; the language server keeps the resulting programs and asks them for entities. Paths are
-- from the repository's root.
--
-- * IntervalTree (src/include/IntervalTree.h) and EntityMap (src/include/EntityMap.h, `mark_entity` of
--   src/bpp_include/bpp_program.cpp): which entity is active at a position of a file. A tree is the list
--   of its intervals and the flag `sorted`. EntityMap/Regions states the map's promise for regions.
-- * Classes (src/bpp_include/bpp_class.cpp, bpp_method.cpp, `add_reference` of bpp_entity.cpp): shared
--   objects stand in a store addressed by numbers, and a class holds addresses. Members is `add_method`
--   and `add_datamember`, Lookup is `get_method` and `get_datamember`, Inherit is `inherit`.
-- * Entities (src/bpp_include/bpp.h, bpp_entity.cpp): identifiers, `OwnedEntityList`, `get_object`,
--   `add_object`, and the classes and objects that an entity knows.
-- * CodeBuffers (src/bpp_include/bpp_code_entity.cpp, bpp_string.cpp): the buffers of code, next line
--   and after the line. `emit` is what `exitBashPipeline` does, with the newline that ends the line.
-- * CommandSequence (src/bpp_include/bash_command_sequence.cpp): pipelines joined by connectives.
-- * Codegen (src/bpp_include/bpp_codegen.cpp, templates.h, the counters of bpp_program.cpp): Segments
--   has the calls, casts and supershells, SystemMethods the methods `__new`, `__delete` and `__copy`,
--   Resolve the resolution of references (`resolve_reference_impl`), ClassCode the functions and the
--   vTable of a class (`add_class` of bpp_program.cpp, src/bpp_include/replace_all.cpp).
-- * Listener (src/listener/BashppListener.h, the files of src/listener/handlers): the state of the listener,
--   the entities on its stack with their buffers (Entities), the steps that handlers share (Steps), and the
--   handlers: Conditionals (if, while, until), Headers (for, select, case), Blocks (blocks, functions,
--   subshells, supershells), Strings (commands and text), Expressions, Values, Assignments, Classes
--   (classes, data members), Methods (methods, constructors, destructors), Declarations (objects,
--   pointers) and References. Walk is `walk` of src/AST/Listener/BaseListener.h; a handler `enterX` of
--   the source is `enter_x` here.
-- * Ast (src/AST/ASTNode.cpp): the children of a node.
-- * ProgramPool (src/lsp/ProgramPool.cpp): the programs of the language server, the files that they are
--   made of, and the open and unsaved files.
-- * ThreadPool (src/lsp/ThreadPool.cpp): the queue of tasks and the workers. A run is a sequence of steps,
--   each a passage of one worker through the lock, the end of a task, or a call of the pool.
-- * Debounce (src/lsp/handlers/handleDidChange.cpp): when a changed file is parsed again.
--   `finish_change` is given what the pool's `re_parse_programs` answers, and `run_change` puts the two
--   together; Debounce/Flag says what becomes of the flag `processing`.
-- * BashVersion (src/include/BashVersion.h): versions, parsed, printed and compared.
-- * Prelude has Boolean tests on numbers, byte strings, decimal numbers and lemmas on lists. Tests has
--   runs of the models and the theorems at concrete inputs.
--
-- Bounds and fuel
-- Numbers are natural numbers. The fields of positions and versions carry their widths as predicates
-- (IsPosition, IsVersion), and the counters of a program wrap around at 2^64. `add_reference` has fuel
-- for the chain of overridden methods: `add_method` gives it one more than the number of the method that
-- it begins with, and a method is overridden only by later ones. `generate_code_for_new_method` has fuel
-- for the depth of objects nested in objects, and answers `none` if that runs out or a method is missing.
-- In the listener, `add_object` gives it one more than the number of classes, and without enough the code
-- is taken to overflow the stack. `subsume` of the program pool has as much fuel as there are programs: each round passes one or removes one.
--
-- Parameters
-- The pool's `parse` stands for `_parse_program`, the parser and the listener on one file; the theorems
-- hold for any. `read` of `get_file_contents` is the disk. `object_of` of the resolution is the lookup
-- of objects in its context.
--
-- Not modelled
-- The scanner and the grammar are inputs of generators. Messages, JSON, the command line and the run
-- of Bash are input and output. Of the listener, the handlers of includes and of the program node are
-- left out, and so are its warnings; the entity on the stack is modelled, not the pointers to it, so that
-- what points to an entity directly below is a place on the stack. The positions of references during
-- resolution are left out. The file
-- src/include/xgetopt.h is a copy of another project's library.
pub mod Prelude
pub mod IntervalTree
pub mod Debounce
pub mod Entities
pub mod EntityMap
pub mod Classes
pub mod Ast
pub mod BashVersion
pub mod CodeBuffers
pub mod CommandSequence
pub mod Codegen
pub mod ProgramPool
pub mod Listener
pub mod ThreadPool
mod Tests
