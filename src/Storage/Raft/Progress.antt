-- ===== src/Storage/Raft/Progress.antt =====
-- Every message keeps what Order says: the handlers of src/storage/distributed.c.
use purevisor.Base.{
  add32, ℕ, zero, suc, ◌+◌, ◌-◌, ◌<◌, ◌≤◌, inl, inr, refl, Bool, true, false, ◌&&◌, ◌||◌, not,
  Option, none, some, ltb, leb, ◌==◌, arith, Bool-cases,
}
use purevisor.Storage.Raft.{
  Raft, Message, vote_request, vote_response, append_request, append_response, other, is_candidate,
  is_leader, get_log_entry, slot_of,
}
use purevisor.Storage.Raft.Handlers.{
  catch_up, can_grant, handle_vote_request, count_vote, majority, handle_vote_response, mismatches,
  respond, heed, follow_commit, handle_append_request, can_commit, commit_loop, acknowledge,
  replied, handle_append_response, raft_recv_message,
}
use purevisor.Storage.Raft.Order.{
  Grows, Grows-trans, Keeps, keep, Keeps-Grows, same-Keeps, Keeps-trans, become_leader-Grows,
}

catch_up-Keeps : (r : Raft) (term : ℕ) → Keeps r (catch_up r term)
catch_up-Keeps r term = record {
  log = ground arith;
  first = ground arith;
  last = ground arith;
  commit = ground arith;
  applied = ground arith;
  term = ground arith;
}

vote_request-Keeps : (r : Raft) (f t i lt tsc : ℕ) → Keeps r (handle_vote_request r f t i lt tsc)
unfolding handle_vote_request
vote_request-Keeps r f t i lt tsc =
    Keeps-trans r (catch_up r t) _ (catch_up-Keeps r t)
      (elim (Bool-cases (can_grant (catch_up r t) f t i lt)) [
        | inl g ↦ rw g (keep refl refl refl refl refl (omega arith))
        | inr g ↦ rw g (keep refl refl refl refl refl (omega arith))
      ])

count_vote-Grows : (r : Raft) → Grows r (count_vote r)
count_vote-Grows r =
    let v = record r { votes_received = add32 r.votes_received 1 } in
    elim (Bool-cases (leb (majority r) v.votes_received)) [
      | inl t ↦ rw t (
          Grows-trans r v _ (Keeps-Grows r v (keep refl refl refl refl refl (omega arith)))
            (become_leader-Grows v))
      | inr f ↦ rw f (Keeps-Grows r v (keep refl refl refl refl refl (omega arith)))
    ]

vote_response-Grows :
    (r : Raft) (term : ℕ) (granted : Bool) → Grows r (handle_vote_response r term granted)
unfolding handle_vote_response
vote_response-Grows r term granted = elim (Bool-cases (ltb r.current_term term)) [
  | inl t ↦ rw t (Keeps-Grows r _ (keep refl refl refl refl refl (ground arith)))
  | inr f ↦ rw f (elim (Bool-cases (not (is_candidate r.state) || not (term == r.current_term))) [
    | inl t ↦ rw t (Keeps-Grows r r (same-Keeps r))
    | inr f' ↦ rw f' (elim (Bool-cases granted) [
      | inl t ↦ rw t (count_vote-Grows r)
      | inr g ↦ rw g (Keeps-Grows r r (same-Keeps r))
    ])
  ])
]

heed-Keeps : (r : Raft) (f t tsc : ℕ) → r.current_term ≤ t → Keeps r (heed r f t tsc)
heed-Keeps r f t tsc l =
    keep (ground arith) (ground arith) (ground arith) (ground arith) (ground arith) (ground arith)

follow_commit-Grows : (r : Raft) (c : ℕ) → Grows r (follow_commit r c)
follow_commit-Grows r c v = (
  record {
    first = ground (arith, v.first);
    fits = ground (arith, v.fits);
    committed = ground (arith, v.committed);
    applied = ground (arith, v.applied, v.committed);
    indexed = λ i pos l. ground (arith, v.indexed i pos);
  },
  record {
    term = ground arith;
    last = ground arith;
    commit = ground (arith, v.committed);
    applied = ground arith;
    kept = λ i l. ground arith;
  },
)

respond-Grows : (r q : Raft) (to : ℕ) (b : Bool) (m : ℕ) → Grows r q → Grows r (respond q to b m)
respond-Grows r q to b m g =
    Grows-trans r q (respond q to b m) g
      (Keeps-Grows q _ (keep refl refl refl refl refl (omega arith)))

append_request-Grows :
    (r : Raft) (f t pi pt c n tsc : ℕ) → Grows r (handle_append_request r f t pi pt c n tsc)
unfolding handle_append_request
append_request-Grows r f t pi pt c n tsc =
    let q = catch_up r t in
    let h = heed q f t tsc in
    elim (Bool-cases (ltb t q.current_term)) [
      | inl old ↦ rw old (respond-Grows r q f false 0 (Keeps-Grows r q (catch_up-Keeps r t)))
      | inr new ↦
          let k : Keeps r h =
            Keeps-trans r q h (catch_up-Keeps r t) (heed-Keeps q f t tsc (ground (arith, new))) in
          rw new (elim (Bool-cases (ltb 0 pi && mismatches (get_log_entry h pi) pt)) [
            | inl bad ↦ rw bad (respond-Grows r h f false 0 (Keeps-Grows r h k))
            | inr ok ↦ rw ok (
                respond-Grows r _ f true _
                  (Grows-trans r h _ (Keeps-Grows r h k) (follow_commit-Grows h c)))
          ])
    ]

advance-Grows :
    (r : Raft) (n : ℕ)
    → r.commit_index < n
    → n ≤ r.last_index
    → Grows r (record r { commit_index = n })
advance-Grows r n l h v = (
  record {
    first = v.first;
    fits = v.fits;
    committed = h;
    applied = omega (arith, v.applied, l);
    indexed = v.indexed;
  },
  record {
    term = omega arith;
    last = omega arith;
    commit = omega (arith, l);
    applied = omega arith;
    kept = λ i l. refl;
  },
)

commit_loop-Grows :
    (r : Raft) (n k : ℕ)
    → r.commit_index < n
    → n + k ≤ r.last_index + 1
    → Grows r (commit_loop r n k)
unfolding commit_loop
commit_loop-Grows r n zero l h = Keeps-Grows r r (same-Keeps r)
commit_loop-Grows r n (suc k) l h = elim (Bool-cases (can_commit r n)) [
  | inl t ↦
      let q = record r { commit_index = n } in
      rw (t, commit_loop)
        (Grows-trans r q _ (advance-Grows r n l (omega (arith, h)))
          (commit_loop-Grows q (n + 1) k (omega arith) (omega (arith, h))))
  | inr f ↦
      rw (f, commit_loop) (commit_loop-Grows r (n + 1) k (omega (arith, l)) (omega (arith, h)))
]

replied-Grows :
    (r : Raft) (success : Bool) (index : ℕ) (o : Option ℕ) → Grows r (replied r success index o)
replied-Grows r success index none = Keeps-Grows r r (same-Keeps r)
replied-Grows r true index (some i) = λ v.
    let q = acknowledge r i index in
    Grows-trans r q _ (Keeps-Grows r q (keep refl refl refl refl refl (omega arith)))
      (commit_loop-Grows q (r.commit_index + 1) (r.last_index - r.commit_index) (omega arith)
        (omega (arith, v.committed)))
      v
replied-Grows r false index (some i) = Keeps-Grows r _ (keep refl refl refl refl refl (omega arith))

append_response-Grows :
    (r : Raft) (f t : ℕ) (success : Bool) (index : ℕ)
    → Grows r (handle_append_response r f t success index)
unfolding handle_append_response
append_response-Grows r f t success index = elim (Bool-cases (ltb r.current_term t)) [
  | inl b ↦ rw b (Keeps-Grows r _ (keep refl refl refl refl refl (ground arith)))
  | inr b ↦ rw b (elim (Bool-cases (is_leader r.state)) [
    | inl c ↦ rw c (replied-Grows r success index (slot_of r f))
    | inr c ↦ rw c (Keeps-Grows r r (same-Keeps r))
  ])
]

pub recv-Grows : (r : Raft) (m : Message) (tsc : ℕ) → Grows r (raft_recv_message r m tsc).1
unfolding raft_recv_message
recv-Grows r (vote_request f t i lt) tsc = Keeps-Grows r _ (vote_request-Keeps r f t i lt tsc)
recv-Grows r (vote_response f t g) tsc = vote_response-Grows r t g
recv-Grows r (append_request f t pi pt c n) tsc = append_request-Grows r f t pi pt c n tsc
recv-Grows r (append_response f t s i) tsc = append_response-Grows r f t s i
recv-Grows r other tsc = Keeps-Grows r r (same-Keeps r)
