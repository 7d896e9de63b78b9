-- ===== src/Url.antt =====
-- crates/rqx-core/src/url: URL references, their components and the base URL of a client.
pub mod Components
pub mod Marks
pub mod Reference
pub mod Joining
pub mod BaseUrl
pub mod Library
pub mod Splitting
pub mod Copies
