-- ===== src/Clients.antt =====
-- internal/clients: the retry of calls that re-run the S3 validation, and the way from a
-- reference to a ClusterProviderConfig to an Ops Manager client.
pub mod Retry
pub mod Resolve
