-- ===== src/Schema.antt =====
-- packages/shell_contracts/schema_loader.py and packages/shell_core/schema_validation.py.
pub mod Catalog
pub mod Validation
pub mod Shipped
