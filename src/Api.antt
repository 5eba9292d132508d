-- ===== src/Api.antt =====
-- app/api: the transactions of the routes that change a room, and serving media.
pub mod Rooms
pub mod Submissions
pub mod Uploads
pub mod Media
pub mod Infer
pub mod Session
