-- ===== src/Http/Request/RoundTrip.antt =====
-- Requests in text, and what the parser makes of them.
pub mod Tokens
pub mod Headers
pub mod Request
