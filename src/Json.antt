-- ===== src/Json.antt =====
-- JSON documents as Python holds them after `json.loads`: the data that every module passes on.
pub mod Values
pub mod Access
pub mod Same
pub mod Order
unfoldable pub use Values.*
unfoldable pub use Access.*
unfoldable pub use Same.*
unfoldable pub use Order.*
