-- ===== src/Law.antt =====
-- src/institution_enforcement.ts: the predicates of institutional laws, from their text to a verdict,
-- and the admission of an institution.
pub mod Syntax
pub mod Reader
mod Termination
pub mod Evaluation
pub mod Kleene
pub mod Symbols
pub mod Reads
pub mod Admissibility
pub mod Admitted
mod Declared
mod Admission
mod Tests
