-- ===== src/Cluster/Vm/Migration.antt =====
-- Live migration and the nodes' machine counts: `virt_vm_migrate` and `virt_vm_stop` of
-- src/cluster/vm.c.
use purevisor.Base.{ℕ, ◌≡◌, ◌≢◌, true, false, arith, add32, sub32, add64}
use purevisor.Cluster.World.{World}
use purevisor.Cluster.Vm.{is_active, virt_vm_migrate, virt_vm_stop}

-- The machine `a` has moved from its host to `target`, and nothing else has changed hands.
pub record Migrated (w w' : World) (a target : ℕ) : Type 0 where
  pub host : (w'.vm a).host_node ≡ target
  pub host_id : (w'.vm a).host_node_id ≡ (w.node target).id
  pub same_state : (w'.vm a).state ≡ (w.vm a).state
  pub gained : (w'.node target).vm_count ≡ add32 (w.node target).vm_count 1
  pub lost : (w'.node (w.vm a).host_node).vm_count ≡ sub32 (w.node (w.vm a).host_node).vm_count 1
  pub migrations :
      (w'.node (w.vm a).host_node).total_migrations
      ≡ add64 (w.node (w.vm a).host_node).total_migrations 1
  pub nodes : (n : ℕ) → n ≢ target → n ≢ (w.vm a).host_node → w'.node n ≡ w.node n
  pub machines : (b : ℕ) → b ≢ a → w'.vm b ≡ w.vm b
  pub running : w'.mgr.running_count ≡ w.mgr.running_count

-- An active machine with a host moves to any other node: it keeps its state, the two nodes' counts
-- move by one each, the host counts a migration, and no other node or machine is touched.
pub migrate-Migrated :
    (w : World) (a target : ℕ)
    → a ≢ 0
    → target ≢ 0
    → (w.vm a).host_node ≢ 0
    → (w.vm a).host_node ≢ target
    → is_active (w.vm a).state ≡ true
    → let (moved, w') = virt_vm_migrate w a target in (moved ≡ true) × Migrated w w' a target
unfolding virt_vm_migrate
migrate-Migrated w a target na nt nh ne on = (
  ground arith,
  record {
    host = ground arith;
    host_id = ground arith;
    same_state = ground arith;
    gained = ground arith;
    lost = ground arith;
    migrations = ground arith;
    nodes = λ n p q. ground arith;
    machines = λ b p. ground arith;
    running = ground arith;
  },
)

-- A migration that is refused or has nothing to do moves no machine and touches no node.
pub migrate_refused :
    (w : World) (a target : ℕ)
    → is_active (w.vm a).state ≡ false
    → let (moved, w') = virt_vm_migrate w a target in
      (moved ≡ false)
      × (w'.node ≡ w.node)
      × (w'.mgr ≡ w.mgr)
      × ((w'.vm a).state ≡ (w.vm a).state)
      × ((w'.vm a).host_node ≡ (w.vm a).host_node)
unfolding virt_vm_migrate
migrate_refused w a target off = ground arith

-- An active machine hosted on the manager's own node, migrated to another and then stopped, is
-- taken off the local node a second time, while the node that ran it keeps counting it.
pub stop_after_migrate :
    (w : World) (a target now : ℕ)
    → a ≢ 0
    → target ≢ 0
    → w.mgr.local_node ≢ 0
    → w.mgr.local_node ≢ target
    → (w.vm a).host_node ≡ w.mgr.local_node
    → is_active (w.vm a).state ≡ true
    → let local = w.mgr.local_node in
      let w' = (virt_vm_stop (virt_vm_migrate w a target).1 a now).1 in
      ((w'.node target).vm_count ≡ add32 (w.node target).vm_count 1)
      × ((w'.node local).vm_count ≡ sub32 (sub32 (w.node local).vm_count 1) 1)
unfolding virt_vm_migrate virt_vm_stop
stop_after_migrate w a target now na nt nl ne h on = ground arith
