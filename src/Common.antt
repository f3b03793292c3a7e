-- ===== src/Common.antt =====
-- common/ and what several modules share.
pub mod Errors
pub mod Pusher
pub mod Pagination
pub mod ErrorFilter
pub mod Listing
pub mod SoftDelete
