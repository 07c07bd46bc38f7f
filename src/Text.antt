-- ===== src/Text.antt =====
-- What the source uses of Rust's texts: a `String` is the list of its UTF-8 bytes where the
-- program looks inside it.
pub mod Utf8
pub mod Decimal
use combee.Prelude.{ℕ, List}

abbrev pub Bytes : Type 0
Bytes = List ℕ
