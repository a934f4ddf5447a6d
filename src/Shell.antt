-- ===== src/Shell.antt =====
-- crates/tokenzero-core/src/shell_quote.rs: quoting arguments, splitting command strings and
-- detecting shell syntax. A string is here the list of its characters' code points.
pub mod Chars
pub mod Split
pub mod Quote
pub mod RoundTrip
mod Tests
