-- ===== src/Env.antt =====
-- Environment variables (src/env): the text of the Env tab and the expansion of references.
pub mod Chars
pub mod Values
pub mod Quoting
pub mod File
pub mod RoundTrip
pub mod Interpolate
mod Tests
