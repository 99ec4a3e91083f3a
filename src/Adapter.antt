-- ===== src/Adapter.antt =====
-- The registries that a bridge can write to, each behind the interface of bridge/types.go.
pub mod Uri
pub mod Client
pub mod Keyed
pub mod ConsulKv
pub mod Etcd
pub mod Skydns
pub mod Zookeeper
pub mod Consul
pub mod Factories
pub mod Table
