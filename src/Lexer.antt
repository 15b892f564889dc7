-- ===== src/Lexer.antt =====
-- crates/grenat_lexer: from a source text to tokens, comments and errors.
pub mod Keywords
pub mod Token
pub mod Source
pub mod Scan
pub mod Strings
pub mod Run
mod Tests
mod Samples
