-- ===== src/Examples.antt =====
-- Tests on concrete inputs, and the theorems at inputs that meet their hypotheses.
mod Registry
mod Slices
mod Tables
mod Pipelines
mod Braces
mod Texts
mod Editing
mod Recall
mod Sums
