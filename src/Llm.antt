-- ===== src/Llm.antt =====
-- berlue/llm: the client of the model server.
pub mod Client
mod Examples
