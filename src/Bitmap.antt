-- ===== src/Bitmap.antt =====
-- The page bitmap of mm/pmm/pmm.c: an array of 64-bit words, one bit for each page. A word is the
-- list of its bits, the lowest first, since the code only sets, clears and tests single bits and
-- compares a whole word with ~0.
mod Defs
mod Laws
mod Count
unfoldable pub use Defs.*
pub use Laws.*
pub use Count.*
