-- ===== src/Tests.antt =====
-- The theorems at concrete inputs: an outside with fixed answers, a few jobs, stores and nodes.
mod Samples
mod Tables
mod Codecs
mod Sorting
mod Stores
mod Jobs
mod Rounds
mod Ticks
mod Nodes
mod Calls
mod Clusters
mod Effects
mod Examples
mod GormStores
mod MongoStores
mod EtcdStores
mod RedisStores
