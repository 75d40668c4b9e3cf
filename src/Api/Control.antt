-- ===== src/Api/Control.antt =====
-- internal/api/control: the control plane's handlers.
pub mod Sandboxes
pub mod Listing
pub mod Routes
pub mod Asked
pub mod Acting
pub mod Timeouts
pub mod Builds
pub mod Templates
pub mod Files
