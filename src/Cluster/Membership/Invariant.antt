-- ===== src/Cluster/Membership/Invariant.antt =====
-- Membership of src/cluster/node.c stays consistent: the counts, the quorum and the list agree.
use purevisor.Base.{
  ℕ, ◌+◌, ◌/◌, ◌≤◌, ◌<◌, ◌≡◌, ◌≢◌, sym, subst, inl, inr, ◌==◌, leb, Bool, true, false, arith,
  length, tally, All, Distinct, Bool-cases, unlink-All, unlink-Distinct, length-unlink,
  length-linked, unlink-absent,
}
use purevisor.Cluster.Node.{Node}
use purevisor.Cluster.World.{World, Cluster, ClusterEvent, node_join, node_leave}
use purevisor.Cluster.Membership.{
  cluster_create, cluster_add_node, cluster_remove_node, cluster_update_stats, join, leave, without,
  notify,
}
use purevisor.Cluster.Membership.Counts.{
  online_at, update_stats-online, update_stats-SameMembers, SameMembers,
}

pub record IsConsistent (w : World) : Type 0 where
  pub counted : w.cluster.node_count ≡ length w.cluster.nodes
  pub capacity : w.cluster.node_count ≤ 64
  pub quorum : w.cluster.quorum_size ≡ w.cluster.node_count / 2 + 1
  pub online : w.cluster.online_count ≡ tally (online_at w.node) w.cluster.nodes
  pub distinct : Distinct w.cluster.nodes
  pub nonnull : All (λ a. 0 < a) w.cluster.nodes

-- A fresh cluster is consistent.
pub cluster_create-IsConsistent :
    (w : World) (now : ℕ) → IsConsistent (record w { cluster = cluster_create now })
unfolding cluster_create
cluster_create-IsConsistent w now = omega arith

-- The statistics make the online count right, whatever it was.
stats-IsConsistent :
    (w : World) (node' : ℕ → Node) (c : Cluster)
    → c.node_count ≡ length c.nodes
    → c.node_count ≤ 64
    → c.quorum_size ≡ c.node_count / 2 + 1
    → Distinct c.nodes
    → All (λ a. 0 < a) c.nodes
    → IsConsistent (record w { node = node'; cluster = cluster_update_stats node' c })
stats-IsConsistent w node' c counted capacity quorum distinct nonnull = record {
  counted = ground (arith, same);
  capacity = ground (arith, same);
  quorum = ground (arith, same);
  online = ground (arith, same, update_stats-online node' c (omega arith));
  distinct = subst Distinct (sym (same.0)) distinct;
  nonnull = subst (All (λ a. 0 < a)) (sym (same.0)) nonnull;
}
  where
    same : SameMembers (cluster_update_stats node' c) c
    same = update_stats-SameMembers node' c

notify-IsConsistent :
    (w : World) (registered : Bool) (e : ClusterEvent)
    → IsConsistent w
    → IsConsistent (record w { cluster = notify registered e w.cluster })
notify-IsConsistent w true e v = record {
  counted = v.counted;
  capacity = v.capacity;
  quorum = v.quorum;
  online = v.online;
  distinct = v.distinct;
  nonnull = v.nonnull;
}
notify-IsConsistent w false e v = v

join-IsConsistent :
    (w : World) (a now : ℕ)
    → IsConsistent w
    → a ≢ 0
    → w.cluster.node_count < 64
    → All (λ y. a ≢ y) w.cluster.nodes
    → IsConsistent (join w a now)
unfolding join
join-IsConsistent w a now v nz room new = notify-IsConsistent _ _ (node_join a) (
    stats-IsConsistent w _ _ (ground arith) (ground arith) (ground arith) (new, v.distinct)
      (omega arith, v.nonnull))

-- A node that is not yet a member is added, or refused, and a consistent cluster stays consistent.
pub add_node-IsConsistent :
    (w : World) (a now : ℕ)
    → IsConsistent w
    → All (λ y. a ≢ y) w.cluster.nodes
    → IsConsistent (cluster_add_node w a now).1
unfolding cluster_add_node
add_node-IsConsistent w a now v new = elim (Bool-cases (a == 0)) [
  | inl e ↦ rw e v
  | inr e ↦ rw e (elim (Bool-cases (leb 64 w.cluster.node_count)) [
    | inl f ↦ rw f v
    | inr f ↦ rw f (join-IsConsistent w a now v (ground arith) (ground arith) new)
  ])
]

stats-notify-IsConsistent :
    (w : World) (node' : ℕ → Node) (registered : Bool) (e : ClusterEvent) (c : Cluster)
    → c.node_count ≡ length c.nodes
    → c.node_count ≤ 64
    → c.quorum_size ≡ c.node_count / 2 + 1
    → Distinct c.nodes
    → All (λ a. 0 < a) c.nodes
    → IsConsistent
        (record w { node = node'; cluster = cluster_update_stats node' (notify registered e c) })
stats-notify-IsConsistent w node' true e c = stats-IsConsistent w node' _
stats-notify-IsConsistent w node' false e c = stats-IsConsistent w node' c

leave-IsConsistent : (w : World) (a : ℕ) → IsConsistent w → IsConsistent (leave w a)
unfolding leave
leave-IsConsistent w a v =
    stats-notify-IsConsistent w _ w.cluster.on_node_leave (node_leave a) (without w.cluster a)
      (ground (
        arith,
        length-unlink a w.cluster.nodes,
        length-linked a w.cluster.nodes,
        unlink-absent a w.cluster.nodes,
      ))
      (ground (
        arith,
        length-unlink a w.cluster.nodes,
        length-linked a w.cluster.nodes,
        unlink-absent a w.cluster.nodes,
      ))
      (ground (
        arith,
        length-unlink a w.cluster.nodes,
        length-linked a w.cluster.nodes,
        unlink-absent a w.cluster.nodes,
      ))
      (unlink-Distinct a w.cluster.nodes v.distinct) (unlink-All _ a w.cluster.nodes v.nonnull)

-- Removing a node, a member or not, keeps a consistent cluster consistent.
pub remove_node-IsConsistent :
    (w : World) (a : ℕ) → IsConsistent w → IsConsistent (cluster_remove_node w a).1
unfolding cluster_remove_node
remove_node-IsConsistent w a v = elim (Bool-cases (a == 0)) [
  | inl e ↦ rw e v
  | inr e ↦ rw e (leave-IsConsistent w a v)
]
