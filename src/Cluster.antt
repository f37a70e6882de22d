-- ===== src/Cluster.antt =====
-- The cluster: nodes and membership (src/cluster/node.c), virtual machines (src/cluster/vm.c) and
-- their placement (src/cluster/scheduler.c).
pub mod Node
pub mod World
pub mod Membership
pub mod Vm
pub mod Scheduler
mod Tests
