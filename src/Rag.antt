-- ===== src/Rag.antt =====
-- jenezis/rag: the retrieval and the answer.
pub mod Fusion
pub mod Retriever
pub mod Generator
