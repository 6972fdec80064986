-- ===== src/Retrieval.antt =====
-- apps/backend/retrieval: evidence, context and answers. The modules of this folder follow its files.
pub mod Types
pub mod Context
pub mod Services
