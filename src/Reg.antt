-- ===== src/Reg.antt =====
-- The registrar, the server of the Web-UI (v2/lens3/registrar.go, with v2/lens3/poolprop.go and the
-- tables of v2/lens3/table.go): the requests on pools, buckets and access keys.
pub mod KeyVal
pub mod Flow
pub mod Records
pub mod Table
pub mod Naming
pub mod World
pub mod Desc
pub mod Pools
pub mod Access
pub mod Checks
pub mod Handlers
pub mod Isolation
pub mod Memory
pub mod Tests
pub mod Answers
pub mod Probe
pub mod Orphan
pub mod Gathered
pub mod Made
pub mod Deleted
