-- ===== src/Examples.antt =====
-- The theorems at work: each example applies a theorem to a small concrete world.
mod Fixtures
mod Tokens
mod Requests
mod People
mod Devices
mod Http
mod Pages
mod Keys
mod Flow
mod Start
mod Admin
mod Server
