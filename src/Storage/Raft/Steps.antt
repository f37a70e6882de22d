-- ===== src/Storage/Raft/Steps.antt =====
-- Every event keeps what Order says: the clock of src/storage/distributed.c and a client's calls.
use purevisor.Base.{
  ℕ, zero, suc, ◌+◌, ◌-◌, ◌^◌, ◌≡◌, ◌<◌, ◌≤◌, inl, inr, refl, ◌∙◌, Bool, List, Option, none, some,
  leb, add64, sub64, arith, Bool-cases,
}
use purevisor.Storage.Raft.{
  Raft, LogEntry, EntryKind, is_leader, max_nodes, get_log_entry, become_candidate, slot_of,
  deactivate, raft_submit, raft_add_node, raft_remove_node, heartbeat_ms, raft_init,
}
use purevisor.Storage.Raft.Handlers.{
  apply_one, apply_loop, Reaches, here, after, raft_tick, tick_rest, heartbeat, Event, receive,
  tick, submit, add_node, remove_node, step,
}
use purevisor.Storage.Raft.Order.{
  IsOrdered, Extends, Grows, Grows-trans, Keeps, keep, Keeps-Grows, same-Keeps, send_peers-Keeps,
  become_candidate-Keeps, append_log_entry-Grows,
}
use purevisor.Storage.Raft.Progress.{recv-Grows}

apply_one-Keeps : (r : Raft) (o : Option LogEntry) → Keeps r (apply_one r o)
apply_one-Keeps r none = same-Keeps r
apply_one-Keeps r (some e) = keep refl refl refl refl refl (omega arith)

-- One more entry counted as applied.
abbrev bump : Raft → Raft
bump r = record r { last_applied = add64 r.last_applied 1 }

bump-Grows : (r : Raft) → r.last_applied < r.commit_index → Grows r (bump r)
bump-Grows r l v = (
  record {
    first = v.first;
    fits = v.fits;
    committed = v.committed;
    applied = omega (arith, l);
    indexed = v.indexed;
  },
  record {
    term = omega arith;
    last = omega arith;
    commit = omega arith;
    applied = omega (arith, l, v.committed, v.fits);
    kept = λ i l. refl;
  },
)

pub apply_loop-Grows :
    (r : Raft) (n : ℕ) → r.last_applied + n ≤ r.commit_index → Grows r (apply_loop r n)
unfolding apply_loop
apply_loop-Grows r zero h = Keeps-Grows r r (same-Keeps r)
apply_loop-Grows r (suc n) h = λ v.
    let a = bump r in
    let o = get_log_entry a a.last_applied in
    let q = apply_one a o in
    let k = apply_one-Keeps a o in
    Grows-trans r a _ (bump-Grows r (omega (arith, h)))
      (Grows-trans a q _ (Keeps-Grows a q k)
        (apply_loop-Grows q n (omega (arith, k.applied, k.commit, h, v.committed, v.fits))))
      v

candidate-Grows :
    (r : Raft) (now_ms tsc : ℕ)
    → r.current_term + 1 < 2 ^ 64
    → Grows r (record (become_candidate r tsc) { last_heartbeat = now_ms })
candidate-Grows r now_ms tsc l =
    let k = become_candidate-Keeps r tsc l in
    Keeps-Grows r _ (keep k.log k.first k.last k.commit k.applied k.term)

tick_rest-Grows :
    (r : Raft) (now_ms tsc : ℕ) → r.current_term + 1 < 2 ^ 64 → Grows r (tick_rest r now_ms tsc)
tick_rest-Grows r now_ms tsc l = elim (Bool-cases (is_leader r.state)) [
  | inl t ↦ rw t (elim (Bool-cases (leb heartbeat_ms (sub64 now_ms r.last_hb))) [
    | inl b ↦
        let q = record r { last_hb = now_ms } in
        let k = send_peers-Keeps q (heartbeat r) 0 r.node_count in
        rw b (Keeps-Grows r _ (keep k.log k.first k.last k.commit k.applied k.term))
    | inr b ↦ rw b (Keeps-Grows r r (same-Keeps r))
  ])
  | inr f ↦ rw f (elim (Bool-cases (leb r.election_timeout (sub64 now_ms r.last_heartbeat))) [
    | inl b ↦ rw b (candidate-Grows r now_ms tsc l)
    | inr b ↦ rw b (Keeps-Grows r r (same-Keeps r))
  ])
]

apply_loop-term : (r : Raft) (n : ℕ) → (apply_loop r n).current_term ≡ r.current_term
unfolding apply_loop
apply_loop-term r zero = refl
apply_loop-term r (suc n) =
    let a = bump r in
    apply_loop-term (apply_one a (get_log_entry a a.last_applied)) n
    ∙ apply_one_term a (get_log_entry a a.last_applied)
  where
    apply_one_term :
        (q : Raft) (o : Option LogEntry) → (apply_one q o).current_term ≡ q.current_term
    apply_one_term q none = refl
    apply_one_term q (some e) = refl

tick-Grows :
    (r : Raft) (now_ms tsc : ℕ) → r.current_term + 1 < 2 ^ 64 → Grows r (raft_tick r now_ms tsc)
unfolding raft_tick
tick-Grows r now_ms tsc l = λ v.
    let n = r.commit_index - r.last_applied in
    Grows-trans r (apply_loop r n) _ (apply_loop-Grows r n (omega (arith, v.applied)))
      (tick_rest-Grows (apply_loop r n) now_ms tsc (omega (arith, l, apply_loop-term r n))) v

deactivate-Keeps : (r : Raft) (o : Option ℕ) → Keeps r (deactivate r o).1
deactivate-Keeps r none = same-Keeps r
deactivate-Keeps r (some i) = keep refl refl refl refl refl (omega arith)

submit-Grows :
    (r : Raft) (got : Bool) (kind : EntryKind) (payload : List ℕ)
    → Grows r (raft_submit got r kind payload).1
unfolding raft_submit
submit-Grows r got kind payload = elim (Bool-cases (is_leader r.state)) [
  | inl t ↦ rw t (append_log_entry-Grows got r r.current_term kind payload)
  | inr f ↦ rw f (Keeps-Grows r r (same-Keeps r))
]

add_node-Grows :
    (r : Raft) (id : ℕ) (address : List ℕ) (port : ℕ) → Grows r (raft_add_node r id address port).1
unfolding raft_add_node
add_node-Grows r id address port = elim (Bool-cases (leb max_nodes r.node_count)) [
  | inl t ↦ rw t (Keeps-Grows r r (same-Keeps r))
  | inr f ↦ rw f (Keeps-Grows r _ (keep refl refl refl refl refl (omega arith)))
]

step-Grows : (r : Raft) (e : Event) → r.current_term + 1 < 2 ^ 64 → Grows r (step r e)
unfolding step raft_remove_node
step-Grows r (receive m tsc) l = recv-Grows r m tsc
step-Grows r (tick now_ms tsc) l = tick-Grows r now_ms tsc l
step-Grows r (submit got kind payload) l = submit-Grows r got kind payload
step-Grows r (add_node id address port) l = add_node-Grows r id address port
step-Grows r (remove_node id) l = Keeps-Grows r _ (deactivate-Keeps r (slot_of r id))

pub Reaches-Grows : (r : Raft) {q : Raft} → Reaches r q → Grows r q
Reaches-Grows r here = Keeps-Grows r r (same-Keeps r)
Reaches-Grows r (after {q = u} p e l) = Grows-trans r u _ (Reaches-Grows r p) (step-Grows u e l)

pub raft_init-IsOrdered : (id tsc : ℕ) → IsOrdered (raft_init id tsc)
unfolding raft_init
raft_init-IsOrdered id tsc = record {
  first = refl;
  fits = omega arith;
  committed = omega arith;
  applied = omega arith;
  indexed = λ i pos l. absurd (omega (arith, pos, l));
}

-- From a fresh node on, whatever messages arrive, and in whatever order they and the ticks of the clock
-- do: the indices applied, committed and last stand in this order and the log fits its array, and from
-- any point on neither an index nor the term goes back and no entry in the log changes. The term does
-- not wrap.
pub Reaches-Extends :
    (id tsc : ℕ) {q s : Raft}
    → Reaches (raft_init id tsc) q
    → Reaches q s
    → IsOrdered s × Extends q s
Reaches-Extends id tsc {q} {s} p p' =
    Reaches-Grows q p' (Reaches-Grows (raft_init id tsc) p (raft_init-IsOrdered id tsc)).0
