-- ===== src/Extraction.antt =====
-- extraction.py: requirements are read off the lines of a document, each with its evidence.
-- `stable_id` stands for the SHA-256 digest of its parts.
pub mod Lines
pub mod Documents
pub mod Kept
pub mod Analysed
