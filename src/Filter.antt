-- ===== src/Filter.antt =====
-- internal/database/dao/filter_translator.go: filter expressions in CEL, translated into SQL.
pub mod Syntax
pub mod Strings
pub mod Operators
pub mod Fields
pub mod Translate
pub mod Lexer
pub mod Closed
pub mod Literals
pub mod Selected
pub mod Operands
pub mod Members
pub mod Safe
pub mod Numbers
pub mod Values
pub mod Roundtrip
pub mod Operations
mod Tests
