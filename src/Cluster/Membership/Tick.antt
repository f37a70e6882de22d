-- ===== src/Cluster/Membership/Tick.antt =====
-- The heartbeat scan `cluster_tick` of src/cluster/node.c.
use purevisor.Base.{
  suc, sub32, All-of, tally-le, ℕ, ◌<◌, ◌≡◌, ◌≢◌, ◌==◌, inl, inr, refl, sym, subst, ap, ◌∙◌, true,
  false, List, [], ◌∷◌, arith, tally, All, Member, Distinct, Bool-cases, if◌then◌else◌, update,
  linked, Member-linked, tally-update, tally-ext,
}
use purevisor.Cluster.Node.{Node, NodeState, failed, is_online, node_set_state}
use purevisor.Cluster.World.{World, Cluster}
use purevisor.Cluster.Membership.{
  timed_out, fail_node, update_uptime, tick_node, tick_loop, cluster_tick, cluster_elect_leader,
  cluster_check_quorum,
}
use purevisor.Cluster.Membership.Counts.{online_at, online_at-update}
use purevisor.Cluster.Membership.Invariant.{IsConsistent}

-- What the scan makes of a node's state.
abbrev pub scanned : Node → ℕ → NodeState
scanned n now = if timed_out n now then failed else n.state

-- One round decides the node it is at, and leaves no fault behind.
tick_node_self :
    (w : World) (a now : ℕ)
    → let n = (tick_node w a now).node a in
      (n.state ≡ scanned (w.node a) now) × (timed_out n now ≡ false)
unfolding tick_node fail_node update_uptime node_set_state
tick_node_self w a now = ground arith

tick_node_other : (w : World) (a now x : ℕ) → x ≢ a → (tick_node w a now).node x ≡ w.node x
unfolding tick_node fail_node update_uptime
tick_node_other w a now x ne = ground arith

-- A node that is in time stays as it is.
tick_loop_in_time :
    (w : World) (xs : List ℕ) (now x : ℕ)
    → timed_out (w.node x) now ≡ false
    → ((tick_loop w xs now).node x).state ≡ (w.node x).state
unfolding tick_loop
tick_loop_in_time w [] now x h = refl
tick_loop_in_time w (a ∷ as') now x h = elim (Bool-cases (x == a)) [
  | inl e ↦
      let e' : x ≡ a = ground arith in
      rw e' (
        ground (
          arith,
          tick_node_self w a now,
          tick_loop_in_time (tick_node w a now) as' now a,
          ap (λ k. timed_out (w.node k) now) e',
        ))
  | inr e ↦
      let ne : x ≢ a = ground arith in
      let same = tick_node_other w a now x ne in
      tick_loop_in_time (tick_node w a now) as' now x (ap (λ n. timed_out n now) same ∙ h)
      ∙ ap (λ (n : Node). n.state) same
]

tick_loop_state :
    (w : World) (xs : List ℕ) (now x : ℕ)
    → Member x xs
    → ((tick_loop w xs now).node x).state ≡ scanned (w.node x) now
unfolding tick_loop
tick_loop_state w [] now x m = elim m [ ]
tick_loop_state w (a ∷ as') now x (inl e) =
    rw e (ground (arith, tick_node_self w a now, tick_loop_in_time (tick_node w a now) as' now a))
tick_loop_state w (a ∷ as') now x (inr m) = elim (Bool-cases (x == a)) [
  | inl e ↦
      let e' : x ≡ a = ground arith in
      rw e'
        (ground (arith, tick_node_self w a now, tick_loop_in_time (tick_node w a now) as' now a))
  | inr e ↦
      let ne : x ≢ a = ground arith in
      tick_loop_state (tick_node w a now) as' now x m
      ∙ ap (λ n. scanned n now) (tick_node_other w a now x ne)
]

-- After a scan a member has failed exactly if it was online, remote and silent for longer than the
-- timeout; every other member keeps its state.
pub tick_state :
    (w : World) (now x : ℕ)
    → Member x w.cluster.nodes
    → ((cluster_tick w now).node x).state ≡ scanned (w.node x) now
unfolding cluster_tick
tick_state w now x m = tick_loop_state w w.cluster.nodes now x m

-- An election changes who leads, and nothing of the membership.
elect_keeps :
    (node : ℕ → Node) (c : Cluster)
    → let c' = (cluster_elect_leader node c).1 in
      (c'.nodes ≡ c.nodes)
      × (c'.node_count ≡ c.node_count)
      × (c'.quorum_size ≡ c.quorum_size)
      × (c'.online_count ≡ c.online_count)
unfolding cluster_elect_leader
elect_keeps node c = ground arith

-- Writing a member changes the count of online nodes by that member alone.
tally-write :
    (node : ℕ → Node) (a : ℕ) (n : Node) (xs : List ℕ)
    → Distinct xs
    → linked a xs ≡ true
    → (if is_online n.state then suc (tally (online_at node) xs) else tally (online_at node) xs) ≡ (
        if online_at node a
        then suc (tally (online_at (update node a n)) xs)
        else tally (online_at (update node a n)) xs)
tally-write node a n xs d l =
    rw (tally-ext _ _ xs (All-of (online_at-update node a n) xs))
      (tally-update (online_at node) a (is_online n.state) xs d l)

fail_node-IsConsistent :
    (w : World) (a : ℕ)
    → IsConsistent w
    → linked a w.cluster.nodes ≡ true
    → online_at w.node a ≡ true
    → IsConsistent (fail_node w a)
unfolding fail_node cluster_check_quorum node_set_state
fail_node-IsConsistent w a v l on =
    let less =
      tally-write w.node a (node_set_state (w.node a) failed) w.cluster.nodes v.distinct l in
    let keeps = elect_keeps (update w.node a (node_set_state (w.node a) failed)) (
      cluster_check_quorum
        (record (w.cluster) { online_count = sub32 w.cluster.online_count 1 })) in
    record {
      counted = ground (arith, keeps);
      capacity = ground (arith, keeps);
      quorum = ground (arith, keeps);
      online = ground (arith, keeps, less, tally-le (online_at w.node) w.cluster.nodes);
      distinct = subst Distinct (sym (keeps.0)) v.distinct;
      nonnull = subst (All (λ x. 0 < x)) (sym (keeps.0)) v.nonnull;
    }

update_uptime-IsConsistent :
    (w : World) (a now : ℕ) → IsConsistent w → IsConsistent (update_uptime w a now)
unfolding update_uptime
update_uptime-IsConsistent w a now v = elim (Bool-cases (online_at w.node a)) [
  | inr off ↦ rw off v
  | inl on ↦ rw on (record {
    counted = v.counted;
    capacity = v.capacity;
    quorum = v.quorum;
    online =
        v.online
        ∙ tally-ext _ _ w.cluster.nodes
            (All-of (λ x. ground (arith, ap (online_at w.node) {x = x} {y = a})) w.cluster.nodes);
    distinct = v.distinct;
    nonnull = v.nonnull;
  })
]

tick_node-IsConsistent :
    (w : World) (a now : ℕ)
    → IsConsistent w
    → linked a w.cluster.nodes ≡ true
    → IsConsistent (tick_node w a now)
unfolding tick_node
tick_node-IsConsistent w a now v l = elim (Bool-cases (timed_out (w.node a) now)) [
  | inl t ↦
      rw t (update_uptime-IsConsistent _ a now (fail_node-IsConsistent w a v l (ground arith)))
  | inr t ↦ rw t (update_uptime-IsConsistent w a now v)
]

tick_node-nodes : (w : World) (a now : ℕ) → (tick_node w a now).cluster.nodes ≡ w.cluster.nodes
unfolding tick_node fail_node update_uptime cluster_elect_leader cluster_check_quorum
tick_node-nodes w a now = ground arith

tick_loop-IsConsistent :
    (w : World) (xs : List ℕ) (now : ℕ)
    → IsConsistent w
    → All (λ a. linked a w.cluster.nodes ≡ true) xs
    → IsConsistent (tick_loop w xs now)
unfolding tick_loop
tick_loop-IsConsistent w [] now v l = v
tick_loop-IsConsistent w (a ∷ as') now v l =
    tick_loop-IsConsistent (tick_node w a now) as' now (tick_node-IsConsistent w a now v l.0)
      (subst (λ ns. All (λ x. linked x ns ≡ true) as') (sym (tick_node-nodes w a now)) l.1)

members_linked : (xs : List ℕ) → All (λ a. linked a xs ≡ true) xs
members_linked xs = go xs (λ a m. Member-linked a xs m)
  where
    go :
        (ys : List ℕ)
        → ((a : ℕ) → Member a ys → linked a xs ≡ true)
        → All (λ a. linked a xs ≡ true) ys
    go [] h = tt
    go (y ∷ ys) h = (h y (inl refl), go ys (λ a m. h a (inr m)))

-- A scan of a consistent cluster keeps it consistent, whichever nodes fail on the way: the counts
-- of members and of online members are right, and so is the quorum size.
pub tick-IsConsistent : (w : World) (now : ℕ) → IsConsistent w → IsConsistent (cluster_tick w now)
unfolding cluster_tick
tick-IsConsistent w now v =
    tick_loop-IsConsistent w w.cluster.nodes now v (members_linked w.cluster.nodes)
