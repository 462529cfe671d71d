-- ===== src/Text.antt =====
-- The text operations of the standard library that the pooler's TSV files go through: `lines`,
-- `split`, `trim`, `to_string` and `parse` of `u64`.
mod Split
mod Decimal
pub use Split.{
  IsClean, IsClean-append, IsLine, IsLine-field, IsLine-IsClean, split-IsClean, split-field,
  lines-line, trim-ne-nil,
}
unfoldable pub use Split.{lines, split, cons_head, trim, byte_len}
pub use Decimal.{u64_max, show_u64-IsClean, parse_u64-show_u64, parse_u64-le}
unfoldable pub use Decimal.{show_u64, parse_u64}
