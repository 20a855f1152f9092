-- ===== src/Scenarios.antt =====
-- The theorems at concrete inputs, and small runs of the definitions.
mod AccessControl
mod DnsRecords
mod Jobs
mod DnsZones
mod Routes
mod CdnSites
mod Enrollments
mod Leaders
mod Checks
mod DnsServers
mod NodeZones
mod NodeCaches
mod Forwarders
mod Credentials
