-- ===== src/Normalization.antt =====
-- packages/shell_core/normalization.py and authority_keys.py: the form in which keys are compared,
-- the search for keys and values that claim authority, and their removal.
pub mod Text
pub mod Keys
pub mod Strip
pub mod Findings
pub mod Inbound
pub mod Idempotence
pub mod Claims
pub mod Search
pub mod Removal
