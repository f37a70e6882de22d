-- ===== src/Storage/Raft/Commits.antt =====
-- What is committed and what is applied: `handle_append_response` and `raft_tick` of
-- src/storage/distributed.c.
use purevisor.Base.{
  subst, ℕ, zero, suc, ◌+◌, ◌-◌, ◌*◌, ◌≡◌, ◌<◌, ◌≤◌, ◌⊎◌, inl, inr, refl, sym, ap, ◌∙◌, true, false,
  List, ◌∷◌, some, ltb, leb, ◌==◌, add64, sub64, arith, Bool-cases, count_below, count_below-le,
}
use mathlib.Core.Bool.{false≢true}
use purevisor.Storage.Raft.{
  Raft, LogEntry, Message, is_leader, is_peer, log_size, get_log_entry, send, send_peers,
  become_candidate, max_nodes, slot_of, heartbeat_ms,
}
use purevisor.Storage.Raft.Handlers.{
  can_commit, commit_loop, acknowledge, handle_append_response, apply_one, apply_loop, raft_tick,
  tick_rest, heartbeat,
}
use purevisor.Storage.Raft.Order.{IsOrdered}

-- How many slots of the list stand for a node that said it has entry `n`.
abbrev pub acknowledged : Raft → ℕ → ℕ
acknowledged r n = count_below (λ i. leb n (r.nodes i).match_index) r.node_count

-- An entry in the log of the term that the leader is in, that so many nodes said they have that they and
-- the leader are more than half as many as the list of nodes is long.
pub record IsReady (r : Raft) (n : ℕ) : Type 0 where
  pub in_log : n ≤ r.last_index
  pub own_term : (r.log n).term ≡ r.current_term
  pub most : r.node_count < 2 * (1 + acknowledged r n)

-- The commit index is `old` or an index that is ready, and none past it is.
pub record IsSettled (r : Raft) (old : ℕ) : Type 0 where
  pub source : (r.commit_index ≡ old) ⊎ IsReady r r.commit_index
  pub rest : (n : ℕ) → r.commit_index < n → ¬ IsReady r n

can_commit-IsReady :
    (r : Raft) (n : ℕ)
    → r.first_index ≡ 0
    → r.node_count ≤ max_nodes
    → can_commit r n ≡ true
    → IsReady r n
unfolding get_log_entry
can_commit-IsReady r n f few c =
    let le = count_below-le (λ i. leb n (r.nodes i).match_index) r.node_count in
    record {
      in_log = ground (arith, f, c);
      own_term = ground (arith, f, c);
      most = ground (arith, few, le, c);
    }

IsReady-can_commit :
    (r : Raft) (n : ℕ)
    → r.first_index ≡ 0
    → r.node_count ≤ max_nodes
    → IsReady r n
    → can_commit r n ≡ true
unfolding get_log_entry
IsReady-can_commit r n f few v =
    let le = count_below-le (λ i. leb n (r.nodes i).match_index) r.node_count in
    ground (arith, f, few, le, v.in_log, v.own_term, v.most)

-- The same with the test of the code.
record IsTested (r : Raft) (old : ℕ) : Type 0 where
  source : (r.commit_index ≡ old) ⊎ (can_commit r r.commit_index ≡ true)
  rest : (n : ℕ) → r.commit_index < n → n ≤ r.last_index → can_commit r n ≡ false

IsTested-IsSettled :
    (r : Raft) (old : ℕ)
    → r.first_index ≡ 0
    → r.node_count ≤ max_nodes
    → IsTested r old
    → IsSettled r old
IsTested-IsSettled r old f few v = record {
  source = elim v.source [ inl e ↦ inl e | inr c ↦ inr (can_commit-IsReady r _ f few c) ];
  rest = λ n l i. false≢true (sym (v.rest n l i.in_log) ∙ IsReady-can_commit r n f few i);
}

commit_loop-IsTested :
    (r : Raft) (old n k : ℕ)
    → ((r.commit_index ≡ old) ⊎ (can_commit r r.commit_index ≡ true))
    → ((m : ℕ) → r.commit_index < m → m < n → can_commit r m ≡ false)
    → n + k ≡ r.last_index + 1
    → r.commit_index < n
    → IsTested (commit_loop r n k) old
unfolding commit_loop get_log_entry
commit_loop-IsTested r old n zero s h e l = record {
  source = s;
  rest = λ m a b. h m a (omega (arith, b, e));
}
commit_loop-IsTested r old n (suc k) s h e l = elim (Bool-cases (can_commit r n)) [
  | inl t ↦
      rw (t, commit_loop)
        (commit_loop-IsTested (record r { commit_index = n }) old (n + 1) k (inr t)
          (λ m a b. absurd (omega (arith, a, b))) (omega (arith, e)) (omega arith))
  | inr f ↦
      rw (f, commit_loop)
        (commit_loop-IsTested r old (n + 1) k s
          (λ m a b. elim (Bool-cases (m == n)) [
            | inl i ↦
                let i' : m ≡ n = ground arith in subst (λ j. can_commit r j ≡ false) (sym i') f
            | inr i ↦ h m a (ground arith)
          ])
          (omega (arith, e)) (omega (arith, l)))
]

commit_loop-only :
    (q : Raft) (n k : ℕ)
    → commit_loop q n k ≡ record q { commit_index = (commit_loop q n k).commit_index }
unfolding commit_loop
commit_loop-only q n zero = refl
commit_loop-only q n (suc k) = elim (Bool-cases (can_commit q n)) [
  | inl t ↦ rw (t, commit_loop) (commit_loop-only (record q { commit_index = n }) (n + 1) k)
  | inr f ↦ rw (f, commit_loop) (commit_loop-only q (n + 1) k)
]

-- A leader that hears from the node of slot `i` that it has the entries up to `index` takes that down, and
-- then its commit index is what it was or an index of its log that is ready, and no index past it is ready:
-- an index is ready when its entry is of the term that the leader is in and the slots of the list that
-- acknowledged it and the leader, counted once whether it is in the list or not, are more than half as many
-- as the list has slots. The message is not of a newer term, the list has no more than its 16 slots, and
-- the indices are in order.
pub append_response-IsSettled :
    (r : Raft) (f t index i : ℕ)
    → is_leader r.state ≡ true
    → t ≤ r.current_term
    → slot_of r f ≡ some i
    → r.node_count ≤ max_nodes
    → IsOrdered r
    → IsSettled (handle_append_response r f t true index) r.commit_index
      × (((handle_append_response r f t true index).nodes i).match_index ≡ index)
unfolding handle_append_response
append_response-IsSettled r f t index i lead l s few v =
    let q = acknowledge r i index in
    let n = r.last_index - r.commit_index in
    let only = commit_loop-only q (r.commit_index + 1) n in
    rw (old_term, lead, s)
      (
        IsTested-IsSettled (commit_loop q (r.commit_index + 1) n) r.commit_index
            (ap (λ (x : Raft). x.first_index) only ∙ v.first)
            (subst (λ c. c ≤ max_nodes) (sym (ap (λ (x : Raft). x.node_count) only)) few)
            (commit_loop-IsTested q r.commit_index (r.commit_index + 1) n (inl refl)
              (λ m a b. absurd (omega (arith, a, b))) (omega (arith, v.committed)) (omega arith)),
        ap (λ (x : Raft). (x.nodes i).match_index) only ∙ written,
      )
  where
    old_term : ltb r.current_term t ≡ false
    old_term = ground (arith, l)

    written : ((acknowledge r i index).nodes i).match_index ≡ index
    written = ground arith

-- The entries from `i` on, the latest first, on top of what is there.
abbrev pub entries_from : (ℕ → LogEntry) → ℕ → ℕ → List LogEntry → List LogEntry
entries_from log i zero acc = acc
entries_from log i (suc n) acc = entries_from log (i + 1) n (log i ∷ acc)

-- One more entry applied.
abbrev applied_next : Raft → Raft
applied_next r = record r {
  last_applied = r.last_applied + 1;
  applied = r.log (r.last_applied + 1) ∷ r.applied;
}

abbrev bump : Raft → Raft
bump r = record r { last_applied = add64 r.last_applied 1 }

round_lem :
    (r : Raft)
    → r.has_apply ≡ true
    → r.first_index ≡ 0
    → r.last_applied < r.last_index
    → r.last_index < log_size
    → apply_one (bump r) (get_log_entry (bump r) (bump r).last_applied) ≡ applied_next r
unfolding get_log_entry
round_lem r a f l m = ground (arith, a, f, l, m)

apply_loop-applied :
    (r : Raft) (n : ℕ)
    → r.has_apply ≡ true
    → r.first_index ≡ 0
    → r.last_applied + n ≤ r.last_index
    → r.last_index < log_size
    → ((apply_loop r n).applied ≡ entries_from r.log (r.last_applied + 1) n r.applied)
      × ((apply_loop r n).last_applied ≡ r.last_applied + n)
unfolding apply_loop
apply_loop-applied r zero a f l m = (refl, omega arith)
apply_loop-applied r (suc n) a f l m =
    let (e, k) = apply_loop-applied (applied_next r) n a f (omega (arith, l)) m in
    let round = round_lem r a f (omega (arith, l)) m in
    (
      ap (λ q. (apply_loop q n).applied) round ∙ e,
      ap (λ q. (apply_loop q n).last_applied) round ∙ omega (arith, k),
    )

send_peers-applied :
    (r : Raft) (m : ℕ → Message) (i n : ℕ)
    → ((send_peers r m i n).applied ≡ r.applied)
      × ((send_peers r m i n).last_applied ≡ r.last_applied)
unfolding send_peers
send_peers-applied r m i zero = (refl, refl)
send_peers-applied r m i (suc n) = elim (Bool-cases (is_peer r i)) [
  | inl t ↦ rw (t, send_peers) (send_peers-applied (send r (r.nodes i).id (m i)) m (i + 1) n)
  | inr f ↦ rw (f, send_peers) (send_peers-applied r m (i + 1) n)
]

tick_rest-applied :
    (r : Raft) (now_ms tsc : ℕ)
    → ((tick_rest r now_ms tsc).applied ≡ r.applied)
      × ((tick_rest r now_ms tsc).last_applied ≡ r.last_applied)
unfolding become_candidate
tick_rest-applied r now_ms tsc = elim (Bool-cases (is_leader r.state)) [
  | inl t ↦ rw t (elim (Bool-cases (leb heartbeat_ms (sub64 now_ms r.last_hb))) [
    | inl b ↦
        let q = record r { last_hb = now_ms } in
        rw b (send_peers-applied q (heartbeat r) 0 r.node_count)
    | inr b ↦ rw b (refl, refl)
  ])
  | inr f ↦ rw f (elim (Bool-cases (leb r.election_timeout (sub64 now_ms r.last_heartbeat))) [
    | inl b ↦ rw b (send_peers-applied _ _ 0 r.node_count)
    | inr b ↦ rw b (refl, refl)
  ])
]

-- A tick hands every committed entry that was not applied yet to the storage, each once and in the order
-- of the log, and nothing else; afterwards all that is committed is applied. The indices are in order,
-- and the node has a function that applies entries.
pub tick-applied :
    (r : Raft) (now_ms tsc : ℕ)
    → r.has_apply ≡ true
    → IsOrdered r
    → ((raft_tick r now_ms tsc).applied
        ≡ entries_from r.log (r.last_applied + 1) (r.commit_index - r.last_applied) r.applied)
      × ((raft_tick r now_ms tsc).last_applied ≡ r.commit_index)
unfolding raft_tick
tick-applied r now_ms tsc a v =
    let n = r.commit_index - r.last_applied in
    let (e, k) = apply_loop-applied r n a v.first (omega (arith, v.applied, v.committed)) v.fits in
    let (e', k') = tick_rest-applied (apply_loop r n) now_ms tsc in
    (e' ∙ e, omega (arith, k, k', v.applied))
