-- ===== src/Symbol.antt =====
-- The symbols of src/symbol.
pub mod Table
pub mod Module
