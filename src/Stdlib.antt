-- ===== src/Stdlib.antt =====
-- What the program uses of Go's standard library: text and time (`time`), JSON documents
-- (`encoding/json`), and texts of numbers and words (`strconv`, `strings`).
pub mod Text
pub mod Json
pub mod Strconv
