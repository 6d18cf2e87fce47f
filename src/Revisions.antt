-- ===== src/Revisions.antt =====
-- The creation of complete revisions, of core/services.py: bytes are stored first, payload by
-- payload, and one transaction then makes the revision with its artifacts.
pub mod Payloads
pub mod Rounds
pub mod Commit
pub mod Create
