-- ===== src/Editor.antt =====
-- The line editor of src/editor.rs: the edit buffer, completion, syntax colours and the loop that
-- handles one key at a time.
pub mod Buffer
pub mod Complete
pub mod Actions
pub mod Keys
pub mod Highlight
pub mod Bounds
pub mod Invariant
pub mod Refines
pub mod Browse
pub mod Safety
pub mod Colours
pub mod Selected
pub mod Completion
