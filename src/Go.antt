-- ===== src/Go.antt =====
-- What the program uses of the Go language and of its standard library.
pub mod Error
pub mod Outcome
pub mod Exec
pub mod Map
pub mod Word
pub mod Text
pub mod Types
pub mod Sort
