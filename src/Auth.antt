-- ===== src/Auth.antt =====
-- webtool/auth: payloads, tokens, and the backends that authenticate a request.
pub mod Models
pub mod Backend
pub mod TokenCache
pub mod TokenServer
pub mod Manager
pub mod Service
pub mod Setup
pub mod RedisService
pub mod Rotator
