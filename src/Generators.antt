-- ===== src/Generators.antt =====
-- pkg/protocols/common/generators.
pub mod Iterator
pub mod Values
pub mod Odometer
pub mod ClusterLoop
pub mod ClusterPass
pub mod ClusterTurn
pub mod ClusterReset
pub mod ClusterBomb
pub mod Enumerate
pub mod PitchFork
pub mod BatteringRam
pub mod Reset
pub mod Create
pub mod Created
pub mod CreateTests
pub mod Tests
