-- ===== src/Sntp.antt =====
-- src/services/sntp_client.rs, and `resolve_dns_a_record` of src/services/utils.rs.
pub mod Retry
pub mod Resolve
