-- ===== src/Http.antt =====
-- The HTTP layer of src/shared.
pub mod JsonApi
pub mod Json
pub mod Errors
pub mod Pipes
pub mod Schemas
pub mod Inputs
pub mod Bodies
pub mod Envelope
pub mod Refusals
pub mod Statuses
pub mod Guards
pub mod Admission
pub mod Tokens
pub mod Sessions
pub mod Serving
pub mod Authority
pub mod Logging
