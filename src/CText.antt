-- ===== src/CText.antt =====
-- C strings: lists of bytes with no terminator, and what <string.h> does with them.
mod Compare
mod Words
unfoldable pub use Compare.*
unfoldable pub use Words.*
pub use Prim.Native.Nat.{Ordering}
