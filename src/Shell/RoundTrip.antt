-- ===== src/Shell/RoundTrip.antt =====
-- Splitting what quoting wrote.
pub mod Words
pub mod Safe
pub mod Regions
pub mod Posix
pub mod Powershell
pub mod Cmd
