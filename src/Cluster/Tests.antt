-- ===== src/Cluster/Tests.antt =====
-- The theorems on the cluster at small worlds: two nodes, one of them local, and one machine.
use purevisor.Base.{
  ℕ, ◌≡◌, ◌≢◌, ◌<◌, ◌+◌, ◌*◌, ◌⊎◌, ◌↔◌, refl, true, false, [], ◌∷◌, arith, All, length, add32,
  sub32, tally,
}
use purevisor.Cluster.Node.{Node, online}
use purevisor.Cluster.World.{World, Vm, VmConfig, running}
use purevisor.Cluster.Membership.{
  join, stats_loop, cluster_update_stats, cluster_create, cluster_add_node, cluster_remove_node,
  cluster_elect_leader, cluster_check_quorum, cluster_tick,
}
use purevisor.Cluster.Membership.Counts.{online_at}
use purevisor.Cluster.Membership.Invariant.{
  IsConsistent, cluster_create-IsConsistent, add_node-IsConsistent, remove_node-IsConsistent,
}
use purevisor.Cluster.Membership.Election.{Leads, elect_leader_lem, quorum_majority}
use purevisor.Cluster.Membership.Tick.{tick-IsConsistent}
use purevisor.Cluster.Vm.{vm_manager_init, virt_vm_create, virt_vm_stop, virt_vm_migrate}
use purevisor.Cluster.Vm.Lifecycle.{
  IsSettled, create, start, apply, here, then_call, Reaches-IsSettled,
}
use purevisor.Cluster.Vm.Migration.{Migrated, migrate-Migrated, stop_after_migrate}
use purevisor.Cluster.Scheduler.{
  SchedRequest, scheduler_init, scheduler_schedule, evacuate_vm, evacuation_request,
}
use purevisor.Cluster.Scheduler.Placement.{fits_at, Decides, schedule-Decides}
use purevisor.Cluster.Scheduler.Evacuation.{evacuate_vm_moves}

-- A node of 8 threads, with half of its memory and storage free, named by one character.
abbrev worker : ℕ → Node
worker a = record {
  id = a;
  name = (96 + a) ∷ [];
  address = [];
  port = 22;
  state = online;
  roles = 0;
  joined_time = 0;
  uptime = 0;
  resources = record {
    total_threads = 8;
    vmx_supported = true;
    svm_supported = false;
    model = [];
    total_bytes = 16000;
    free_bytes = 8000;
    used_bytes = 8000;
    storage_total = 1000;
    storage_free = 500;
  };
  health = record {
    score = 100;
    last_heartbeat = 0;
    last_health_check = 0;
    failed_checks = 0;
    consecutive_failures = 0;
    cpu_healthy = true;
    memory_healthy = true;
    storage_healthy = true;
    network_healthy = true;
  };
  tags = [];
  tag_count = 0;
  vm_count = 1;
  total_migrations = 0;
  is_local = false;
}

abbrev small_config : VmConfig
small_config = record { name = 118 ∷ []; vcpus = 2; memory = 1000 }

-- A running machine on node 1.
abbrev running_vm : Vm
running_vm = record {
  id = 1;
  config = small_config;
  state = running;
  created_time = 0;
  started_time = 0;
  stopped_time = 0;
  host_node = 1;
  host_node_id = 1;
  cpu_time_ns = 0;
  error_msg = "";
}

abbrev empty_world : World
empty_world = record {
  node = worker;
  cluster = cluster_create 0;
  vm = λ a. running_vm;
  mgr = vm_manager_init 1;
}

abbrev one_node : World
one_node = (cluster_add_node empty_world 1 5).1

abbrev two_nodes : World
two_nodes = (cluster_add_node one_node 2 6).1

empty_world-IsConsistent : IsConsistent empty_world
empty_world-IsConsistent = cluster_create-IsConsistent empty_world 0

one_node-IsConsistent : IsConsistent one_node
unfolding cluster_create
one_node-IsConsistent = add_node-IsConsistent empty_world 1 5 empty_world-IsConsistent tt

add_node-IsConsistent_example : IsConsistent two_nodes
unfolding cluster_create cluster_add_node join cluster_update_stats stats_loop
add_node-IsConsistent_example =
    add_node-IsConsistent one_node 2 6 one_node-IsConsistent ((λ e. omega (arith, e)), tt)

two_nodes-IsConsistent : IsConsistent two_nodes
unfolding cluster_create cluster_add_node join cluster_update_stats stats_loop
two_nodes-IsConsistent =
    add_node-IsConsistent one_node 2 6 one_node-IsConsistent ((λ e. omega (arith, e)), tt)

remove_node-IsConsistent_example : IsConsistent (cluster_remove_node two_nodes 1).1
remove_node-IsConsistent_example = remove_node-IsConsistent two_nodes 1 two_nodes-IsConsistent

tick-IsConsistent_example : IsConsistent (cluster_tick two_nodes 9000)
tick-IsConsistent_example = tick-IsConsistent two_nodes 9000 two_nodes-IsConsistent

elect_leader_lem_example :
    let (elected, c') = cluster_elect_leader two_nodes.node two_nodes.cluster in
    ((elected ≡ false)
      × (c' ≡ two_nodes.cluster)
      × All (λ x. online_at two_nodes.node x ≡ false) two_nodes.cluster.nodes)
    ⊎ ((elected ≡ true) × ((leader : ℕ) × Leads two_nodes.node two_nodes.cluster c' leader))
elect_leader_lem_example =
    elect_leader_lem two_nodes.node two_nodes.cluster two_nodes-IsConsistent.nonnull

quorum_majority_example : ((cluster_check_quorum two_nodes.cluster).has_quorum ≡ true) ↔ (
    length two_nodes.cluster.nodes < 2 * tally (online_at two_nodes.node) two_nodes.cluster.nodes)
quorum_majority_example = quorum_majority two_nodes two_nodes-IsConsistent

-- The first machine is created, at address 9, and started.
abbrev one_vm : World
one_vm = apply (apply empty_world (create 9 small_config 3)) (start 9 4)

Reaches-IsSettled_example : IsSettled one_vm.vm one_vm.mgr
unfolding vm_manager_init apply virt_vm_create
Reaches-IsSettled_example =
    Reaches-IsSettled empty_world 1
      (then_call (then_call here (create 9 small_config 3) (tt, omega arith)) (start 9 4) refl)

-- Two nodes, and the running machine at every address.
abbrev busy : World
busy = record {
  node = worker;
  cluster = record (cluster_create 0) { nodes = 2 ∷ 1 ∷ []; node_count = 2 };
  vm = λ a. running_vm;
  mgr = record {
    vms = 9 ∷ [];
    vm_count = 1;
    running_count = 1;
    local_node = 1;
    next_vm_id = 2;
    on_vm_state_change = false;
    changes = [];
  };
}

migrate-Migrated_example :
    let (moved, w') = virt_vm_migrate busy 9 2 in (moved ≡ true) × Migrated busy w' 9 2
migrate-Migrated_example =
    migrate-Migrated busy 9 2 (omega arith) (omega arith) (omega arith) (omega arith) refl

stop_after_migrate_example :
    let w' = (virt_vm_stop (virt_vm_migrate busy 9 2).1 9 7).1 in
    ((w'.node 2).vm_count ≡ add32 (busy.node 2).vm_count 1)
    × ((w'.node 1).vm_count ≡ sub32 (sub32 (busy.node 1).vm_count 1) 1)
stop_after_migrate_example =
    stop_after_migrate busy 9 2 7 (omega arith) (omega arith) (omega arith) (omega arith) refl refl

abbrev request : SchedRequest
request = evacuation_request busy 9 1

schedule-Decides_example :
    Decides scheduler_init busy request (scheduler_schedule true scheduler_init busy request)
unfolding cluster_create
schedule-Decides_example = schedule-Decides scheduler_init busy request (omega arith)

-- A node with more machines than its threads allow for.
abbrev overbooked : Node
overbooked = record (worker 2) { vm_count = 9 }

evacuate_vm_moves_example :
    (((evacuate_vm true scheduler_init busy 9 1).1.vm 9).host_node ≢ 1)
    ⊎ All
        (λ n. fits_at scheduler_init busy (evacuation_request busy 9 1) n ≡ false)
        busy.cluster.nodes
unfolding cluster_create
evacuate_vm_moves_example =
    evacuate_vm_moves scheduler_init busy 9 1 (omega arith) refl refl (omega arith) (omega arith)
      (omega arith, (omega arith, tt))
