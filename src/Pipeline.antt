-- ===== src/Pipeline.antt =====
-- berlue/pipeline: the stages between a question and its verdicts.
pub mod Fusion
pub mod Parallel
pub mod Extraction
pub mod HurluBerlu
mod Examples
