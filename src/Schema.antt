-- ===== src/Schema.antt =====
-- The validation of JSON Schema: src/schema-validator.ts. `Json` has the values and their normal text;
-- `Keywords` the checks of each kind of value; `Validate` puts them together.
pub mod Json
pub mod Keywords
pub mod Validate
pub mod Pointers
pub mod Soundness
pub mod KeywordModes
pub mod Modes
mod Tests
