-- ===== src/Api.antt =====
-- berlue/api: the schemas, the rule of the cache of predictions, and the service.
pub mod Schemas
pub mod PredictCache
pub mod Service
mod Examples
