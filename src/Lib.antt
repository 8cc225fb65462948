-- ===== src/Lib.antt =====
-- ion-win: the core logic of the shell, verified.
--
-- ion-win is a shell for Windows. A script is cut into statements, words are expanded (variables,
-- ranges, braces, methods), commands run as pipelines, and every run of processes is registered
-- as an execution that can be cancelled, timed out, waited on and listed. The library follows
-- that structure, one module per part:
--
--   Base       shared types and lemmas: texts as lists of code points, keyed maps, 64-bit signed
--              integers with their wrap-around, and results that can be a value, an error or a
--              panic.
--   Execution  src/execution.rs. `ExecutionManager` is a record with the fields of the source, and
--              each method is a function that takes the registry and gives the new one with its
--              result (`create`, `transition`, `finish_after_wait`, `request_cancellation`,
--              `request_timeout`, `request_foreground_cancellation`, `try_assign_job_object`,
--              `refresh_background_jobs`, `disown_background_jobs`). The clock's reading, the
--              state of a child process and the answers of the Job Object calls are arguments.
--              Execution/Domain has the data, Execution/Manager creation and transitions,
--              Execution/Cancel the requests, Execution/Jobs and Execution/Disown the background
--              jobs. Execution/Reachability is the step relation of the registry.
--   Ranges     src/ranges.rs. Ranges/Index has `parse_slice`, `parse_index_spec` and
--              `apply_array_slice`, Ranges/Slice has `slice_indices`, Ranges/Sequence has
--              `numeric_sequence`, and Ranges/Braces has `parse_top_level_segments` as a scan with
--              its local variables in a record, and `split_top_level_commas`.
--   Table      src/table.rs. A table is a list of rows, a row a list of named cells. Table/Csv has
--              the CSV writer and the scanner that reads it, Table/Csv/Columns the columns that are
--              written; Table/Filter uses the tests of Builtins. JSON is the business of a library.
--   Builtins   the tests of src/builtins.rs. Floating-point numbers and the file system are a
--              record of parameters, `Host`; messages on the standard error are left out.
--   Pipeline   src/pipeline.rs. `parse` over tokens, whose type is from src/interp.rs.
--   Methods    methods of src/methods.rs that need no library: parts of paths, `escape` and
--              `unescape`, `join`, `lines`, `or`, `subst`.
--   Editor     src/editor.rs, the line editor. Editor/Buffer has the edit buffer and the selection,
--              Editor/Complete `complete`, with its slices of a text at a byte, Editor/Actions the
--              keys and Editor/Keys the loop of `run_editor`: `command_of` has the arms of its
--              match, `line_command` and `perform` their bodies, `handle` is one round, and `run`
--              goes through a list of events. An event carries what the clipboard and the file
--              system answer to it; `none` is a panic. Editor/Highlight has `highlight`, with the
--              pieces of the line and their colours in place of escape sequences, Editor/Selected
--              `apply_selection_highlight`. Editor/Refines is the abstract view of the buffer.
--   History    src/history.rs. `parse_records`, `serialize_records`, `compact_locked`, `append` and
--              `load` on the text of the file; History/Rules has `apply_ignore_rules`, and
--              History/Files and History/Behind are about files of whole lines.
--   Arith      src/arith.rs. Arith/Numbers has the numbers and the operators of each level;
--              `parse_rule` is one call of the recursive descent, with a rule for each function of
--              the parser and for each of its loops; `parse` runs it on fuel. Arith/Spec is an
--              independent description: expressions, their text and their meaning.
--   Examples   concrete runs.
--
-- Integers. An i64 is an integer whose operations wrap around at 64 bits, as in a release build
-- (the release profile of Cargo.toml leaves overflow checks off). Identifiers, lengths and times
-- are natural numbers; the id counter stops where the source's checked addition does.
--
-- Characters are their code points, and a text is a list of them.
--
-- Fuel. A loop of `slice_indices` runs on one more round than the sequence has elements, which
-- the theorems about it show to be enough. `numeric_sequence` takes its fuel as an argument,
-- since one of its loops may not end; `none` is a run that used up its fuel. `highlight` runs on
-- as many rounds as the line has characters, and `eval` on a depth of calls of sixteen for each
-- character and sixteen more: ten functions call each other before a character is read. Both are
-- shown to be enough. Every other loop is structural recursion on the text or the list it walks.
--
-- Not modelled. Starting processes, painting the terminal, files and their locks, the clipboard,
-- PostgreSQL, the Task Scheduler and the Win32 calls are input and output around the parts above.
-- Temporal values, the tokenizer with its expansion and the control flow of src/shell.rs have no
-- model here; of src/ranges.rs the expansion of a brace group and the slices of a string are left
-- out, of src/history.rs `inspect`, and of src/editor.rs the listing of directories. Grapheme
-- clusters, regular expressions, floats and the classes of letters are parameters.
pub mod Base
pub mod Arith
pub mod Builtins
pub mod Editor
pub mod Execution
pub mod History
pub mod Methods
pub mod Pipeline
pub mod Ranges
pub mod Table
pub mod Examples
