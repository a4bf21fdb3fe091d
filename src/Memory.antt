-- ===== src/Memory.antt =====
-- The C memory that the program relies on: the outcomes of `malloc`, counts of the blocks that it
-- gave out and that `free` took back, and reads and writes inside a buffer.
mod State
mod Word
mod Buffer
mod Total
mod Partial
mod Strings
unfoldable pub use State.*
unfoldable pub use Word.*
unfoldable pub use Buffer.*
unfoldable pub use Total.*
unfoldable pub use Partial.*
unfoldable pub use Strings.*
