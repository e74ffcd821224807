-- ===== src/Backend.antt =====
-- backend/app/services: the business operations of the API on its database.
pub mod Health
pub mod Query
pub mod Rooms
pub mod Submissions
pub mod Problems
pub mod Limits
pub mod Users
pub mod Endpoints
mod Tests
