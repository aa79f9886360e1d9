-- ===== src/Evaluation.antt =====
-- berlue/evaluation: the offline evaluation of the pipeline.
pub mod Metrics
pub mod Data
pub mod Signals
pub mod Sql
pub mod Store
pub mod BerluePipeline
pub mod RunEval
pub mod Gcp
mod Examples
