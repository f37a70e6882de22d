-- ===== src/Cluster/Membership/Counts.antt =====
-- What `cluster_update_stats` computes: the counts of src/cluster/node.c against the node list.
use purevisor.Base.{ℕ, ◌+◌, ◌^◌, ◌<◌, ◌≡◌, refl, Bool, List, [], ◌∷◌, arith, length, tally, update}
use purevisor.Cluster.Node.{Node, is_online}
use purevisor.Cluster.World.{Cluster}
use purevisor.Cluster.Membership.{add_stats, stats_loop, cluster_update_stats}

-- the test that the counts run
abbrev pub online_at : (ℕ → Node) → ℕ → Bool
online_at node a = is_online (node a).state

pub stats_loop-online :
    (node : ℕ → Node) (xs : List ℕ) (c : Cluster)
    → c.online_count + length xs < 2 ^ 32
    → (stats_loop node xs c).online_count ≡ c.online_count + tally (online_at node) xs
unfolding stats_loop
stats_loop-online node [] c h = omega arith
stats_loop-online node (x ∷ xs) c h =
    ground (arith, stats_loop-online node xs (add_stats (node x) c))

-- The statistics leave the membership alone.
abbrev pub SameMembers : Cluster → Cluster → Type 0
SameMembers c d =
    (c.nodes ≡ d.nodes)
    × (c.node_count ≡ d.node_count)
    × (c.quorum_size ≡ d.quorum_size)
    × (c.leader_id ≡ d.leader_id)
    × (c.has_quorum ≡ d.has_quorum)

pub stats_loop-SameMembers :
    (node : ℕ → Node) (xs : List ℕ) (c : Cluster) → SameMembers (stats_loop node xs c) c
unfolding stats_loop
stats_loop-SameMembers node [] c = (refl, refl, refl, refl, refl)
stats_loop-SameMembers node (x ∷ xs) c =
    ground (arith, stats_loop-SameMembers node xs (add_stats (node x) c))

pub update_stats-SameMembers :
    (node : ℕ → Node) (c : Cluster) → SameMembers (cluster_update_stats node c) c
unfolding cluster_update_stats
update_stats-SameMembers node c = stats_loop-SameMembers node c.nodes _

pub update_stats-online :
    (node : ℕ → Node) (c : Cluster)
    → length c.nodes < 2 ^ 32
    → (cluster_update_stats node c).online_count ≡ tally (online_at node) c.nodes
unfolding cluster_update_stats
update_stats-online node c h = omega (
  arith,
  stats_loop-online node c.nodes
      (record c { total_cpu_threads = 0; total_memory = 0; total_storage = 0; online_count = 0 })
      (omega arith),
)

-- A node written at `a` is online exactly as the new node is.
pub online_at-update :
    (node : ℕ → Node) (a : ℕ) (n : Node) (x : ℕ)
    → online_at (update node a n) x ≡ update (online_at node) a (is_online n.state) x
online_at-update node a n x = ground arith
