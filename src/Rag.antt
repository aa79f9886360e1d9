-- ===== src/Rag.antt =====
-- berlue/rag: an affirmation is judged against the documents of FEVER.
pub mod Answer
pub mod Retriever
mod Examples
