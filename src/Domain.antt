-- ===== src/Domain.antt =====
-- app/domain: the game's own rules.
pub mod Enums
pub mod Keys
pub mod Scoring
pub mod Inflight
pub mod Store
pub mod Settlement
pub mod Scheduler
pub mod Reactions
pub mod Game
pub mod Closing
pub mod Lifecycle
pub mod Lobby
pub mod Rooms
pub mod Views
