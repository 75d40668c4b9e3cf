-- ===== src/Builder.antt =====
-- internal/template/builder: the log of a build, build steps to a Dockerfile, and the life of a
-- build.
pub mod RingBuffer
pub mod Translate
pub mod Spec
pub mod Manager
