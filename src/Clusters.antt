-- ===== src/Clusters.antt =====
-- pkg/templates/cluster.go: templates whose requests are alike share one request.
pub mod Requests
pub mod Cluster
pub mod Partition
pub mod Groups
pub mod Executer
pub mod Uniform
pub mod Service
pub mod Reports
pub mod Templates
pub mod Tests
