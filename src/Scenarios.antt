-- ===== src/Scenarios.antt =====
-- Concrete runs of the models.
mod Realtime
mod Workspace
mod Notification
mod Safety
mod Chat
mod Matching
mod Assertions
mod Friends
mod Discovery
mod Accounts
mod RateLimit
mod Storage
mod Authentication
mod Sockets
