-- ===== src/Common.antt =====
-- include/common: endpoints, buffers and constants.
pub mod Endpoint
pub mod Buffer
pub mod Keys
