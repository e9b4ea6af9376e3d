-- ===== src/Upstream.antt =====
-- internal/upstream: what the plugin sends to the upstream service and what it makes of the answer.
pub mod Json
pub mod Texts
pub mod Tools
pub mod Payload
pub mod Effort
pub mod Thinking
pub mod Markup
pub mod Frames
pub mod Chunks
pub mod CacheKey
pub mod Aggregate
mod Tests
