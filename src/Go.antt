-- ===== src/Go.antt =====
-- What the source uses of Go's standard packages on strings: strings, unicode/utf8,
-- encoding/base64, encoding/hex, the order of map keys, fmt.Fprintf without operands, and decimal numbers.
pub mod Strings
pub mod Utf8
pub mod Base64
pub mod Hex
pub mod Sort
pub mod Fmt
pub mod Json
pub mod Decimal
