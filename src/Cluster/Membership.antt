-- ===== src/Cluster/Membership.antt =====
-- Membership, quorum and leadership: the second half of src/cluster/node.c.
pub mod Counts
pub mod Invariant
pub mod Election
pub mod Tick
use purevisor.Base.{
  str_eq, ℕ, zero, ◌+◌, ◌/◌, Bool, true, false, ◌&&◌, not, List, [], ◌∷◌, ◌++◌, if◌then◌else◌, ltb,
  leb, ◌==◌, add32, sub32, add64, sub64, update, unlink, linked, find_first,
}
use purevisor.Cluster.Node.{
  Node, NodeState, online, joining, leaving, failed, is_online, node_set_state,
}
use purevisor.Cluster.World.{World, Cluster, ClusterEvent, node_join, node_leave, leader_change}

-- The cluster that `cluster_create` fills in when `kmalloc` gave memory.
unfoldable pub cluster_create : ℕ → Cluster
cluster_create now = record {
  nodes = [];
  node_count = 0;
  online_count = 0;
  local_node = 0;
  leader_id = 0;
  is_leader = false;
  formed_time = now;
  quorum_size = 1;
  has_quorum = false;
  total_cpu_threads = 0;
  total_memory = 0;
  total_storage = 0;
  on_node_join = false;
  on_node_leave = false;
  on_leader_change = false;
  events = [];
}

abbrev pub notify : Bool → ClusterEvent → Cluster → Cluster
notify registered e c = if registered then record c { events = e ∷ c.events } else c

-- The totals of `cluster_update_stats` are recomputed node by node.
abbrev pub add_stats : Node → Cluster → Cluster
add_stats n c =
    if is_online n.state
    then record c {
      online_count = add32 c.online_count 1;
      total_cpu_threads = add64 c.total_cpu_threads n.resources.total_threads;
      total_memory = add64 c.total_memory n.resources.total_bytes;
      total_storage = add64 c.total_storage n.resources.storage_total;
    }
    else c

unfoldable pub stats_loop : (ℕ → Node) → List ℕ → Cluster → Cluster
stats_loop node [] c = c
stats_loop node (x ∷ xs) c = stats_loop node xs (add_stats (node x) c)

unfoldable pub cluster_update_stats : (ℕ → Node) → Cluster → Cluster
cluster_update_stats node c =
    stats_loop node c.nodes
      (record c { total_cpu_threads = 0; total_memory = 0; total_storage = 0; online_count = 0 })

-- `cluster_add_node` past its checks.
unfoldable pub join : World → ℕ → ℕ → World
join w a now = record w { node = node'; cluster = notify stats.on_node_join (node_join a) stats }
  where
    open w use {cluster}

    node' : ℕ → Node
    node' = update w.node a (record (w.node a) { state = online; joined_time = now })

    joined : Cluster
    joined = record cluster {
      nodes = a ∷ cluster.nodes;
      node_count = add32 cluster.node_count 1;
      quorum_size = add32 (add32 cluster.node_count 1 / 2) 1;
      online_count = add32 cluster.online_count 1;
    }

    stats : Cluster
    stats = cluster_update_stats node' joined

-- `false` is the return value -1.
unfoldable pub cluster_add_node : World → ℕ → ℕ → Bool × World
cluster_add_node w a now =
    if a == 0
    then (false, w)
    else if leb 64 w.cluster.node_count
    then (false, w)
    else (true, join w a now)

abbrev pub quorum_of : ℕ → ℕ
quorum_of count = if ltb 0 count then add32 (count / 2) 1 else 1

-- The cluster of `cluster_remove_node` once the list is walked and the quorum updated.
abbrev pub without : Cluster → ℕ → Cluster
without c a = record c {
  nodes = unlink a c.nodes;
  node_count = if linked a c.nodes then sub32 c.node_count 1 else c.node_count;
  online_count = if linked a c.nodes then sub32 c.online_count 1 else c.online_count;
  quorum_size = quorum_of (if linked a c.nodes then sub32 c.node_count 1 else c.node_count);
}

-- `cluster_remove_node` past its checks.
pub leave : World → ℕ → World
leave w a = record w {
  node = node';
  cluster =
      cluster_update_stats node'
        (notify w.cluster.on_node_leave (node_leave a) (without w.cluster a));
}
  where
    node' : ℕ → Node
    node' = update w.node a (record (w.node a) { state = leaving })

pub cluster_remove_node : World → ℕ → Bool × World
cluster_remove_node w a = if a == 0 then (false, w) else (true, leave w a)

-- The addresses that `cluster_destroy` gives to `kfree`, in order: the nodes, then the cluster's own.
abbrev pub cluster_destroy : Cluster → ℕ → List ℕ
cluster_destroy c address = c.nodes ++ (address ∷ [])

-- The address of the node found, or 0.
abbrev pub cluster_find_node : World → ℕ → ℕ
cluster_find_node w id = find_first (λ a. (w.node a).id == id) w.cluster.nodes

abbrev pub cluster_find_node_by_name : World → List ℕ → ℕ
cluster_find_node_by_name w name = find_first (λ a. str_eq (w.node a).name name) w.cluster.nodes

-- The loop of the election: `leader` is the best node so far, or 0.
abbrev pub better : (ℕ → Node) → ℕ → ℕ → ℕ
better node leader x =
    if is_online (node x).state
    then if leader == 0 then x else if ltb (node x).id (node leader).id then x else leader
    else leader

pub elect_loop : (ℕ → Node) → ℕ → List ℕ → ℕ
elect_loop node leader [] = leader
elect_loop node leader (x ∷ xs) = elect_loop node (better node leader x) xs

-- What the election writes into the cluster for the node at `leader`.
abbrev pub install : (ℕ → Node) → ℕ → Cluster → Cluster
install node leader c =
    notify (c.on_leader_change && not (c.leader_id == (node leader).id))
      (leader_change (node leader).id)
      (record c {
        leader_id = (node leader).id;
        is_leader = not (c.local_node == 0) && (node c.local_node).id == (node leader).id;
      })

pub cluster_elect_leader : (ℕ → Node) → Cluster → Bool × Cluster
cluster_elect_leader node c =
    let leader = elect_loop node 0 c.nodes in
    if leader == 0 then (false, c) else (true, install node leader c)

pub cluster_check_quorum : Cluster → Cluster
cluster_check_quorum c = record c { has_quorum = leb c.quorum_size c.online_count }

-- HEALTH_TIMEOUT_MS
abbrev pub health_timeout : ℕ
health_timeout = 5000

-- if (node->state == NODE_STATE_ONLINE && !node->is_local && elapsed > HEALTH_TIMEOUT_MS)
abbrev pub timed_out : Node → ℕ → Bool
timed_out n now =
    is_online n.state && not n.is_local && ltb health_timeout (sub64 now n.health.last_heartbeat)

pub fail_node : World → ℕ → World
fail_node w a = record w { node = node'; cluster = (cluster_elect_leader node' checked).1 }
  where
    node' : ℕ → Node
    node' = update w.node a (node_set_state (w.node a) failed)

    checked : Cluster
    checked =
        cluster_check_quorum (record (w.cluster) { online_count = sub32 w.cluster.online_count 1 })

pub update_uptime : World → ℕ → ℕ → World
update_uptime w a now =
    if is_online (w.node a).state
    then record w {
      node = update w.node a (record (w.node a) { uptime = sub64 now (w.node a).joined_time });
    }
    else w

-- One round of the loop of `cluster_tick`.
pub tick_node : World → ℕ → ℕ → World
tick_node w a now = update_uptime (if timed_out (w.node a) now then fail_node w a else w) a now

pub tick_loop : World → List ℕ → ℕ → World
tick_loop w [] now = w
tick_loop w (a ∷ as') now = tick_loop (tick_node w a now) as' now

pub cluster_tick : World → ℕ → World
cluster_tick w now = tick_loop w w.cluster.nodes now
