-- ===== src/Examples.antt =====
-- Tests, and each theorem at an input that meets its hypotheses.
pub mod Toy
pub mod Bucket
pub mod Shelf
pub mod Listings
mod Buckets
mod Ranges
mod Signed
mod Stores
mod Stages
mod Pruning
mod Names
mod Web
mod Fills
mod Taps
