-- ===== src/Http.antt =====
-- http.go: the handler and the client of the HTTP backend.
pub mod Paths
pub mod Ranges
pub mod Opening
pub mod Ranging
pub mod Accepted
pub mod Pieces
pub mod Seeking
pub mod Handler
pub mod Client
pub mod Gates
pub mod Answers
