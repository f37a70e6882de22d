-- ===== src/Cluster/World.antt =====
-- The objects that the cluster's components share: nodes and machines by address, and the structures
-- that list them. The address 0 is NULL. include/cluster/node.h and include/cluster/vm.h.
use purevisor.Base.{ℕ, Bool, List, String}
use purevisor.Cluster.Node.{Node}

-- The calls of the callbacks that a client registered, newest first.
pub data ClusterEvent : Type 0 where
  node_join node_leave leader_change : ℕ → ClusterEvent

-- `cluster_t`; `nodes` lists the addresses along the links.
pub record Cluster : Type 0 where
  pub nodes : List ℕ
  pub node_count : ℕ
  pub online_count : ℕ
  pub local_node : ℕ
  pub leader_id : ℕ
  pub is_leader : Bool
  pub formed_time : ℕ
  pub quorum_size : ℕ
  pub has_quorum : Bool
  pub total_cpu_threads : ℕ
  pub total_memory : ℕ
  pub total_storage : ℕ
  pub on_node_join : Bool
  pub on_node_leave : Bool
  pub on_leader_change : Bool
  pub events : List ClusterEvent

-- VM_STATE_CREATED and the seven others.
pub data VmState : Type 0 where
  created starting running paused stopping stopped migrating error : VmState

-- `vm_config_t`, by the fields that these files read.
pub record VmConfig : Type 0 where
  pub name : List ℕ
  pub vcpus : ℕ
  pub memory : ℕ

-- `virtual_machine_t`.
pub record Vm : Type 0 where
  pub id : ℕ
  pub config : VmConfig
  pub state : VmState
  pub created_time : ℕ
  pub started_time : ℕ
  pub stopped_time : ℕ
  pub host_node : ℕ
  pub host_node_id : ℕ
  pub cpu_time_ns : ℕ
  pub error_msg : String

-- A call of `on_vm_state_change`: the machine, its old state and its new one.
pub record StateChange : Type 0 where
  pub vm : ℕ
  pub old_state : VmState
  pub new_state : VmState

-- `vm_manager_t`, with the log of its callback where one is registered.
pub record Manager : Type 0 where
  pub vms : List ℕ
  pub vm_count : ℕ
  pub running_count : ℕ
  pub local_node : ℕ
  pub next_vm_id : ℕ
  pub on_vm_state_change : Bool
  pub changes : List StateChange

pub record World : Type 0 where
  pub node : ℕ → Node
  pub cluster : Cluster
  pub vm : ℕ → Vm
  pub mgr : Manager
