-- ===== src/Storage/Raft/Order.antt =====
-- What every event keeps: the order of the indices, and the entries that are in the log
-- (src/storage/distributed.c).
use purevisor.Base.{
  ℕ, zero, suc, ◌+◌, ◌^◌, ◌≡◌, ◌<◌, ◌≤◌, inl, inr, refl, ap, ◌∙◌, Bool, true, false, List, [],
  if◌then◌else◌, arith, Bool-cases,
}
use purevisor.Storage.Raft.{
  Raft, LogEntry, EntryKind, noop, Message, is_peer, log_size, append_log_entry, is_full, appended,
  send, send_peers, become_candidate, become_leader, fresh_nodes, leader,
}

-- Applied, committed and last index stand in this order, the log fits its array, and every entry
-- knows its index.
pub record IsOrdered (r : Raft) : Type 0 where
  pub first : r.first_index ≡ 0
  pub fits : r.last_index < log_size
  pub committed : r.commit_index ≤ r.last_index
  pub applied : r.last_applied ≤ r.commit_index
  pub indexed : (i : ℕ) → 0 < i → i ≤ r.last_index → (r.log i).index ≡ i

-- The indices and the term do not go back, and no entry of the log changes.
pub record Extends (r q : Raft) : Type 0 where
  pub term : r.current_term ≤ q.current_term
  pub last : r.last_index ≤ q.last_index
  pub commit : r.commit_index ≤ q.commit_index
  pub applied : r.last_applied ≤ q.last_applied
  pub kept : (i : ℕ) → i ≤ r.last_index → q.log i ≡ r.log i

abbrev pub Grows : Raft → Raft → Type 0
Grows r q = IsOrdered r → IsOrdered q × Extends r q

pub Grows-trans : (r q s : Raft) → Grows r q → Grows q s → Grows r s
Grows-trans r q s f g v =
    let (vq, e) = f v in
    let (vs, e') = g vq in
    (
      vs,
      record {
        term = omega (arith, e.term, e'.term);
        last = omega (arith, e.last, e'.last);
        commit = omega (arith, e.commit, e'.commit);
        applied = omega (arith, e.applied, e'.applied);
        kept = λ i l. e'.kept i (omega (arith, l, e.last)) ∙ e.kept i l;
      },
    )

-- A change that leaves the log and its indices as they are.
pub record Keeps (r q : Raft) : Type 0 where
  pub log : q.log ≡ r.log
  pub first : q.first_index ≡ r.first_index
  pub last : q.last_index ≡ r.last_index
  pub commit : q.commit_index ≡ r.commit_index
  pub applied : q.last_applied ≡ r.last_applied
  pub term : r.current_term ≤ q.current_term

pub keep :
    {r q : Raft}
    → q.log ≡ r.log
    → q.first_index ≡ r.first_index
    → q.last_index ≡ r.last_index
    → q.commit_index ≡ r.commit_index
    → q.last_applied ≡ r.last_applied
    → r.current_term ≤ q.current_term
    → Keeps r q
keep a b c d e f = record { log = a; first = b; last = c; commit = d; applied = e; term = f }

pub Keeps-Grows : (r q : Raft) → Keeps r q → Grows r q
Keeps-Grows r q k v = (
  record {
    first = k.first ∙ v.first;
    fits = omega (arith, k.last, v.fits);
    committed = omega (arith, k.last, k.commit, v.committed);
    applied = omega (arith, k.commit, k.applied, v.applied);
    indexed = λ i pos l.
        ap (λ (f : ℕ → LogEntry). (f i).index) k.log ∙ v.indexed i pos (omega (arith, l, k.last));
  },
  record {
    term = k.term;
    last = omega (arith, k.last);
    commit = omega (arith, k.commit);
    applied = omega (arith, k.applied);
    kept = λ i l. ap (λ (f : ℕ → LogEntry). f i) k.log;
  },
)

pub same-Keeps : (r : Raft) → Keeps r r
same-Keeps r = keep refl refl refl refl refl (omega arith)

pub Keeps-trans : (r q s : Raft) → Keeps r q → Keeps q s → Keeps r s
Keeps-trans r q s f g = record {
  log = g.log ∙ f.log;
  first = g.first ∙ f.first;
  last = g.last ∙ f.last;
  commit = g.commit ∙ f.commit;
  applied = g.applied ∙ f.applied;
  term = omega (arith, f.term, g.term);
}

pub send_peers-Keeps : (r : Raft) (m : ℕ → Message) (i n : ℕ) → Keeps r (send_peers r m i n)
unfolding send_peers
send_peers-Keeps r m i zero = same-Keeps r
send_peers-Keeps r m i (suc n) =
    let q = if is_peer r i then send r (r.nodes i).id (m i) else r in
    Keeps-trans r q (send_peers q m (i + 1) n)
      (elim (Bool-cases (is_peer r i)) [
        | inl t ↦ rw t (keep refl refl refl refl refl (omega arith))
        | inr f ↦ rw f (same-Keeps r)
      ])
      (send_peers-Keeps q m (i + 1) n)

pub become_candidate-Keeps :
    (r : Raft) (tsc : ℕ) → r.current_term + 1 < 2 ^ 64 → Keeps r (become_candidate r tsc)
unfolding become_candidate
become_candidate-Keeps r tsc l =
    Keeps-trans r _ _ (keep refl refl refl refl refl (omega (arith, l)))
      (send_peers-Keeps _ _ 0 r.node_count)

pub appended-Grows :
    (got : Bool) (r : Raft) (term : ℕ) (kind : EntryKind) (payload : List ℕ)
    → is_full r ≡ false
    → Grows r (appended got r term kind payload)
appended-Grows got r term kind payload room v = (
  record {
    first = v.first;
    fits = ground (arith, v.first, v.fits, room);
    committed = ground (arith, v.committed, v.fits);
    applied = v.applied;
    indexed = λ i pos l. ground (arith, v.first, v.fits, v.indexed i pos, l);
  },
  record {
    term = omega arith;
    last = omega (arith, v.fits);
    commit = omega arith;
    applied = omega arith;
    kept = λ i l. ground (arith, v.first, v.fits);
  },
)

pub append_log_entry-Grows :
    (got : Bool) (r : Raft) (term : ℕ) (kind : EntryKind) (payload : List ℕ)
    → Grows r (append_log_entry got r term kind payload).1
unfolding append_log_entry
append_log_entry-Grows got r term kind payload = elim (Bool-cases (is_full r)) [
  | inl t ↦ rw t (Keeps-Grows r r (same-Keeps r))
  | inr f ↦ rw f (appended-Grows got r term kind payload f)
]

pub become_leader-Grows : (r : Raft) → Grows r (become_leader r)
unfolding become_leader
become_leader-Grows r =
    let l = record r { state = leader; leader_id = r.node_id; nodes = fresh_nodes r } in
    Grows-trans r l _ (Keeps-Grows r l (keep refl refl refl refl refl (omega arith)))
      (append_log_entry-Grows true l l.current_term noop [])
