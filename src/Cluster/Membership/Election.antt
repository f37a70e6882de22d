-- ===== src/Cluster/Membership/Election.antt =====
-- Leadership and quorum: what the election and the quorum check of src/cluster/node.c decide.
use purevisor.Base.{
  ℕ, ◌*◌, ◌≤◌, ◌<◌, ◌≡◌, ◌≢◌, ◌⊎◌, inl, inr, ◌↔◌, refl, true, false, List, [], ◌∷◌, arith, length,
  tally, All, Member, Bool-cases, ==-ne, subst, sym, ◌∙◌,
}
use purevisor.Cluster.Node.{Node}
use purevisor.Cluster.World.{World, Cluster}
use purevisor.Cluster.Membership.{
  better, install, elect_loop, cluster_elect_leader, cluster_check_quorum,
}
use purevisor.Cluster.Membership.Counts.{online_at}
use purevisor.Cluster.Membership.Invariant.{IsConsistent}

-- What is known of the best node so far: none, or an online one with an id no larger.
abbrev Beats : (ℕ → Node) → ℕ → ℕ → Type 0
Beats node m x = online_at node x ≡ true → (node m).id ≤ (node x).id

-- One step keeps the best node, or takes the next one.
better_step :
    (node : ℕ → Node) (leader x : ℕ)
    → leader ≢ 0
    → 0 < x
    → let b = better node leader x in
      (b ≢ 0)
      × ((node b).id ≤ (node leader).id)
      × Beats node b x
      × ((b ≡ leader) ⊎ ((b ≡ x) × (online_at node x ≡ true)))
better_step node leader x nz pos = (ground arith, ground arith, (λ on. ground arith), ground arith)

-- Where the winner comes from: the node before the loop, or an online member.
abbrev From : (ℕ → Node) → ℕ → List ℕ → ℕ → Type 0
From node leader xs m = (m ≡ leader) ⊎ (Member m xs × (online_at node m ≡ true))

From-step :
    (node : ℕ → Node) (leader x b : ℕ) (xs : List ℕ) (m : ℕ)
    → (b ≡ leader) ⊎ ((b ≡ x) × (online_at node x ≡ true))
    → From node b xs m
    → From node leader (x ∷ xs) m
From-step node leader x b xs m s (inr (i, on)) = inr (inr i, on)
From-step node leader x b xs m (inl e) (inl f) = inl (f ∙ e)
From-step node leader x b xs m (inr (e, on)) (inl f) =
    inr (inl (f ∙ e), subst (λ k. online_at node k ≡ true) (sym (f ∙ e)) on)

elect_loop_bound :
    (node : ℕ → Node) (leader : ℕ) (xs : List ℕ)
    → leader ≢ 0
    → All (λ x. 0 < x) xs
    → let m = elect_loop node leader xs in
      (m ≢ 0) × ((node m).id ≤ (node leader).id) × All (Beats node m) xs × From node leader xs m
unfolding elect_loop
elect_loop_bound node leader [] nz pos = (nz, omega arith, tt, inl refl)
elect_loop_bound node leader (x ∷ xs) nz pos =
    let s = better_step node leader x nz pos.0 in
    let r = elect_loop_bound node (better node leader x) xs s.0 pos.1 in
    (
      r.0,
      omega (arith, r.1, s.1),
      ((λ on. omega (arith, r.1, s.2 on)), r.2),
      From-step node leader x (better node leader x) xs _ s.3 r.3,
    )

-- What an election from nobody ends with: nobody if no node is online, else the lowest id.
abbrev Start : (ℕ → Node) → List ℕ → ℕ → Type 0
Start node xs m =
    ((m ≡ 0) × All (λ x. online_at node x ≡ false) xs)
    ⊎ ((m ≢ 0) × All (Beats node m) xs × Member m xs × (online_at node m ≡ true))

Start-off :
    (node : ℕ → Node) (x : ℕ) (xs : List ℕ) (m : ℕ)
    → online_at node x ≡ false
    → Start node xs m
    → Start node (x ∷ xs) m
Start-off node x xs m off (inl (z, all)) = inl (z, (off, all))
Start-off node x xs m off (inr (nz, beats, i, on)) = inr (nz, ((λ e. cc), beats), inr i, on)

Start-on :
    (node : ℕ → Node) (x : ℕ) (xs : List ℕ) (m : ℕ)
    → online_at node x ≡ true
    → (m ≢ 0) × ((node m).id ≤ (node x).id) × All (Beats node m) xs × From node x xs m
    → Start node (x ∷ xs) m
Start-on node x xs m on (nz, le, beats, inl e) =
    inr (nz, ((λ _. le), beats), inl e, subst (λ k. online_at node k ≡ true) (sym e) on)
Start-on node x xs m on (nz, le, beats, inr (i, o)) = inr (nz, ((λ _. le), beats), inr i, o)

elect_loop-Start :
    (node : ℕ → Node) (xs : List ℕ) → All (λ x. 0 < x) xs → Start node xs (elect_loop node 0 xs)
unfolding elect_loop
elect_loop-Start node [] pos = inl (refl, tt)
elect_loop-Start node (x ∷ xs) pos = elim (Bool-cases (online_at node x)) [
  | inr off ↦
      let e : better node 0 x ≡ 0 = ground arith in
      subst (λ k. Start node (x ∷ xs) (elect_loop node k xs)) (sym e)
        (Start-off node x xs _ off (elect_loop-Start node xs pos.1))
  | inl on ↦
      let e : better node 0 x ≡ x = ground arith in
      subst (λ k. Start node (x ∷ xs) (elect_loop node k xs)) (sym e)
        (Start-on node x xs _ on (elect_loop_bound node x xs (ground arith) pos.1))
]

-- Who leads the cluster `c` after an election on the nodes of `before`.
pub record Leads (node : ℕ → Node) (before after : Cluster) (leader : ℕ) : Type 0 where
  pub member : Member leader before.nodes
  pub online : online_at node leader ≡ true
  pub lowest : All (λ x. online_at node x ≡ true → (node leader).id ≤ (node x).id) before.nodes
  pub recorded : after.leader_id ≡ (node leader).id

-- Where no member is NULL, an election succeeds exactly when some node is online, and then the
-- online node with the lowest id leads; when it fails the cluster is as it was.
pub elect_leader_lem :
    (node : ℕ → Node) (c : Cluster)
    → All (λ x. 0 < x) c.nodes
    → let (elected, c') = cluster_elect_leader node c in
      ((elected ≡ false) × (c' ≡ c) × All (λ x. online_at node x ≡ false) c.nodes)
      ⊎ ((elected ≡ true) × ((leader : ℕ) × Leads node c c' leader))
unfolding cluster_elect_leader
elect_leader_lem node c pos = elim (elect_loop-Start node c.nodes pos) [
  | inl (z, all) ↦ rw z (inl (refl, refl, all))
  | inr (nz, beats, m, on) ↦
      rw (==-ne _ _ nz) (inr (refl, (elect_loop node 0 c.nodes, leads m on beats)))
]
  where
    leader : ℕ
    leader = elect_loop node 0 c.nodes

    leads :
        Member leader c.nodes
        → online_at node leader ≡ true
        → All (Beats node leader) c.nodes
        → Leads node c (install node leader c) leader
    leads m on beats = record { member = m; online = on; lowest = beats; recorded = ground arith }

-- A consistent cluster has a quorum exactly when more than half of its members are online.
pub quorum_majority :
    (w : World)
    → IsConsistent w
    → ((cluster_check_quorum w.cluster).has_quorum ≡ true)
      ↔ (length w.cluster.nodes < 2 * tally (online_at w.node) w.cluster.nodes)
unfolding cluster_check_quorum
quorum_majority w v = ground arith
