-- ===== src/Auth.antt =====
-- auth/policy.go: which bearer of a token may do what.
pub mod Policy
pub mod Grants
