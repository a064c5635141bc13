-- ===== src/Go.antt =====
-- What the program uses of Go: error values and panics, and the packages `strings`, `path` and
-- `encoding/hex`, over strings as lists of bytes.
pub mod Outcome
pub mod Strings
pub mod Paths
pub mod Hex
pub mod Json
mod Tests
