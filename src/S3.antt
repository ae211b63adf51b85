-- ===== src/S3.antt =====
-- s3.go and reclaim.go: stores in a bucket of an S3 service.
pub mod Keys
pub mod Named
pub mod Adds
pub mod Opening
pub mod Linking
pub mod Listing
pub mod Copying
pub mod Reclaiming
pub mod Copied
pub mod Parts
pub mod Parsed
pub mod Removed
pub mod Sweeping
pub mod Entries
pub mod Listed
pub mod Referenced
pub mod Reclaimed
pub mod Runs
pub mod Walking
pub mod Under
pub mod Walked
pub mod Encoding
pub mod Encoded
pub mod Sorted
pub mod Signing
pub mod Presigning
pub mod Changes
pub mod Streams
pub mod Keeping
pub mod Told
pub mod Sound
pub mod Probe
pub mod Adding
pub mod Store
pub mod Requests
pub mod Markers
pub mod Service
pub mod Trusting
pub mod Marked
