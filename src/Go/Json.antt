-- ===== src/Go/Json.antt =====
-- Package `encoding/json`: the tree of a JSON text, its printer and its reader.
pub mod Value
pub mod Sort
pub mod Print
pub mod Parse
pub mod Quote
pub mod Wordy
pub mod RoundTrip
mod Tests
