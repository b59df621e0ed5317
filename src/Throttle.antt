-- ===== src/Throttle.antt =====
-- webtool/throttle: the rules, the decorator that attaches them, the limiter and the middleware.
pub mod Rule
pub mod Closure
pub mod Decorator
pub mod Limiter
pub mod Middleware
