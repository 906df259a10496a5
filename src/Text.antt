-- ===== src/Text.antt =====
-- What the program uses of Go's `strings`, `strconv` and `fmt`, on texts as lists of code points.
pub mod Edit
pub mod Number
pub mod Laws
