-- ===== src/Http.antt =====
-- http.c: requests and responses.
pub mod Number
pub mod Range
pub mod Request
pub mod Writes
pub mod Html
pub mod Response
