-- ===== src/Json.antt =====
-- JSON values as Python holds them: `None`, `bool`, `int`, `str`, `list` and `dict` with the
-- operations on them that the program uses. A number with a fraction or an exponent is not
-- modelled: every number is an integer.
pub mod Value
pub mod Keys
pub mod Text
pub mod Bytes
pub mod Decimal
unfoldable pub use Value.*
unfoldable pub use Keys.{sort_keys}
unfoldable pub use Text.{canonical_json}
