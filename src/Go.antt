-- ===== src/Go.antt =====
-- What the program uses of Go's packages `strings` and `strconv`, and of Go's maps.
pub mod Text
pub mod Number
pub mod Decimal
pub mod Map
pub mod Result
pub mod Quote
