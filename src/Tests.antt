-- ===== src/Tests.antt =====
-- Runs of the model at concrete inputs.
mod Fixtures
mod Manager
mod Containers
mod Logs
mod Running
mod Requests
mod Uploads
mod Builds
mod Templates
