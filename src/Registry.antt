-- ===== src/Registry.antt =====
-- The registries that keep records in one dict: packages/shell_core/runtime_registry.py,
-- recovery_catalog.py and update_policy_store.py, and packages/runtime_catalog/catalog.py.
pub mod Keyed
pub mod Stores
pub mod Signed
