-- ===== src/Selfcheck.antt =====
-- berlue/selfcheck: how much samples of the model diverge from an affirmation.
pub mod Branch
pub mod Loading
mod Examples
