-- ===== src/Base.antt =====
-- The names that every module shares: the libraries', passed on, the Boolean tests, lists measured
-- by native numbers, equality as an interface, and association lists for the source's maps.
mod Core
mod Lists
mod Equality
mod Maps
mod Results
mod Sort
mod Decimal
mod Strings
mod Utf8
mod Assignments
mod Pieces
pub mod Actions
pub use Core.*
pub use Lists.*
pub use Equality.*
pub use Maps.*
unfoldable pub use Utf8.*
unfoldable pub use Strings.*
unfoldable pub use Assignments.*
pub use Pieces.*
unfoldable pub use Decimal.*
unfoldable pub use Sort.*
pub use Results.*
pub use Utf8.Decode.{from_utf8_lossy-encode, IsScalar-all_ascii}
