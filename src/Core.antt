-- ===== src/Core.antt =====
-- berlue/core: the contract between the modules of the pipeline.
pub mod Schemas
