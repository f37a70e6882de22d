-- ===== src/Storage/Raft/Requests.antt =====
-- One vote for each term, kept by the requests to append, the clock and the changes of the cluster
-- of src/storage/distributed.c.
use purevisor.Base.{
  subst, ℕ, zero, suc, ◌+◌, ◌-◌, ◌^◌, ◌≡◌, ◌<◌, ◌≤◌, inl, inr, refl, Bool, true, false, ◌&&◌, List,
  Option, none, some, if◌then◌else◌, ltb, leb, add64, sub64, arith, Bool-cases,
}
use purevisor.Storage.Raft.{
  Raft, LogEntry, EntryKind, Message, vote_request, append_response, is_candidate, is_leader,
  max_nodes, get_log_entry, become_follower, become_candidate, candidate, random_timeout,
  get_last_log_term, slot_of, deactivate, raft_submit, raft_add_node, heartbeat_ms,
}
use purevisor.Storage.Raft.Handlers.{
  mismatches, respond, heed, follow_commit, handle_append_request, can_commit, commit_loop,
  acknowledge, replied, handle_append_response, apply_one, apply_loop, raft_tick, tick_rest,
  heartbeat,
}
use purevisor.Storage.Raft.Voting.{
  IsFaithful, Quiet, Quiet-IsFaithful, Newer-IsFaithful, stand_down-IsFaithful,
}
use purevisor.Storage.Raft.Ballots.{
  Carries, same-Quiet, Quiet-trans, send-Quiet, send_peers-Quiet, follower-Newer, appended-Quiet,
}

respond-Carries :
    (r q : Raft) (to : ℕ) (b : Bool) (m : ℕ) → Carries r q → Carries r (respond q to b m)
respond-Carries r q to b m g v =
    Quiet-IsFaithful q _
      (send-Quiet q to (append_response q.node_id q.current_term b m) (λ t. refl)) (g v)

heed-Carries : (r : Raft) (f t tsc : ℕ) → r.current_term ≡ t → Carries r (heed r f t tsc)
heed-Carries r f t tsc e v =
    let q = record r { leader_id = f; last_heartbeat = tsc } in
    let w =
      Quiet-IsFaithful r q
        record { node = refl; term = refl; voted = refl; votes = λ k. refl; stands = λ h. h } v in
    elim (Bool-cases (is_candidate r.state)) [
      | inl c ↦ rw c (subst (λ k. IsFaithful (become_follower q k)) e (stand_down-IsFaithful q c w))
      | inr c ↦ rw c w
    ]

follow_commit-Quiet : (r : Raft) (c : ℕ) → Quiet r (follow_commit r c)
follow_commit-Quiet r c = elim (Bool-cases (ltb r.commit_index c)) [
  | inl t ↦
      rw t record { node = refl; term = refl; voted = refl; votes = λ k. refl; stands = λ h. h }
  | inr f ↦ rw f (same-Quiet r)
]

-- The request past the change of term.
heard-Carries :
    (r : Raft) (f t pi pt c n tsc : ℕ)
    → t ≤ r.current_term
    → Carries r (
        if ltb t r.current_term
        then respond r f false 0
        else if ltb 0 pi && mismatches (get_log_entry (heed r f t tsc) pi) pt
        then respond (heed r f t tsc) f false 0
        else respond (follow_commit (heed r f t tsc) c) f true (add64 pi n))
heard-Carries r f t pi pt c n tsc l = elim (Bool-cases (ltb t r.current_term)) [
  | inl old ↦ rw old (respond-Carries r r f false 0 (λ v. v))
  | inr new ↦
      let h = heed r f t tsc in
      let k : Carries r h = heed-Carries r f t tsc (ground (arith, l, new)) in
      rw new (elim (Bool-cases (ltb 0 pi && mismatches (get_log_entry h pi) pt)) [
        | inl bad ↦ rw bad (respond-Carries r h f false 0 k)
        | inr ok ↦ rw ok (
            respond-Carries r _ f true _
              (λ v. Quiet-IsFaithful h _ (follow_commit-Quiet h c) (k v)))
      ])
]

pub append_request-Carries :
    (r : Raft) (f t pi pt c n tsc : ℕ) → Carries r (handle_append_request r f t pi pt c n tsc)
unfolding handle_append_request
append_request-Carries r f t pi pt c n tsc = elim (Bool-cases (ltb r.current_term t)) [
  | inl b ↦ rw b (λ v.
      heard-Carries (become_follower r t) f t pi pt c n tsc (omega arith)
        (Newer-IsFaithful r _ (follower-Newer r t (ground (arith, b))) v))
  | inr b ↦ rw b (heard-Carries r f t pi pt c n tsc (ground (arith, b)))
]

commit_loop-Quiet : (r : Raft) (n k : ℕ) → Quiet r (commit_loop r n k)
unfolding commit_loop
commit_loop-Quiet r n zero = same-Quiet r
commit_loop-Quiet r n (suc k) = elim (Bool-cases (can_commit r n)) [
  | inl t ↦
      let q = record r { commit_index = n } in
      rw (t, commit_loop)
        (Quiet-trans r q _
          record { node = refl; term = refl; voted = refl; votes = λ j. refl; stands = λ h. h }
          (commit_loop-Quiet q (n + 1) k))
  | inr f ↦ rw (f, commit_loop) (commit_loop-Quiet r (n + 1) k)
]

replied-Quiet :
    (r : Raft) (success : Bool) (index : ℕ) (o : Option ℕ) → Quiet r (replied r success index o)
replied-Quiet r success index none = same-Quiet r
replied-Quiet r true index (some i) =
    let q = acknowledge r i index in
    Quiet-trans r q _
      record { node = refl; term = refl; voted = refl; votes = λ j. refl; stands = λ h. h }
      (commit_loop-Quiet q (r.commit_index + 1) (r.last_index - r.commit_index))
replied-Quiet r false index (some i) = record {
  node = refl;
  term = refl;
  voted = refl;
  votes = λ j. refl;
  stands = λ h. h;
}

pub append_response-Carries :
    (r : Raft) (f t : ℕ) (success : Bool) (index : ℕ)
    → Carries r (handle_append_response r f t success index)
unfolding handle_append_response
append_response-Carries r f t success index = elim (Bool-cases (ltb r.current_term t)) [
  | inl b ↦ rw b (Newer-IsFaithful r _ (follower-Newer r t (ground (arith, b))))
  | inr b ↦ rw b (elim (Bool-cases (is_leader r.state)) [
    | inl c ↦ rw c (Quiet-IsFaithful r _ (replied-Quiet r success index (slot_of r f)))
    | inr c ↦ rw c (λ v. v)
  ])
]

apply_one-Quiet : (r : Raft) (o : Option LogEntry) → Quiet r (apply_one r o)
apply_one-Quiet r none = same-Quiet r
apply_one-Quiet r (some e) = record {
  node = refl;
  term = refl;
  voted = refl;
  votes = λ j. refl;
  stands = λ h. h;
}

apply_loop-Quiet : (r : Raft) (n : ℕ) → Quiet r (apply_loop r n)
unfolding apply_loop
apply_loop-Quiet r zero = same-Quiet r
apply_loop-Quiet r (suc n) =
    let a = record r { last_applied = add64 r.last_applied 1 } in
    let q = apply_one a (get_log_entry a a.last_applied) in
    Quiet-trans r q _
      (Quiet-trans r a q
        record { node = refl; term = refl; voted = refl; votes = λ j. refl; stands = λ h. h }
        (apply_one-Quiet a (get_log_entry a a.last_applied)))
      (apply_loop-Quiet q n)

candidate-Carries :
    (r : Raft) (now_ms tsc : ℕ)
    → r.current_term + 1 < 2 ^ 64
    → Carries r (record (become_candidate r tsc) { last_heartbeat = now_ms })
unfolding become_candidate
candidate-Carries r now_ms tsc l v =
    let c = record r {
      state = candidate;
      current_term = add64 r.current_term 1;
      voted_for = r.node_id;
      votes_received = 1;
      election_timeout = random_timeout tsc;
    } in
    let w =
      Newer-IsFaithful r c
        record { node = refl; term = omega (arith, l); votes = λ t. refl; stands = λ e. refl } v in
    let m : ℕ → Message =
      λ i. vote_request c.node_id c.current_term c.last_index (get_last_log_term c) in
    let k = send_peers-Quiet c m 0 c.node_count (λ i t. refl) in
    Quiet-IsFaithful c _
      record { node = k.node; term = k.term; voted = k.voted; votes = k.votes; stands = k.stands } w

tick_rest-Carries :
    (r : Raft) (now_ms tsc : ℕ) → r.current_term + 1 < 2 ^ 64 → Carries r (tick_rest r now_ms tsc)
tick_rest-Carries r now_ms tsc l = elim (Bool-cases (is_leader r.state)) [
  | inl t ↦ rw t (elim (Bool-cases (leb heartbeat_ms (sub64 now_ms r.last_hb))) [
    | inl b ↦
        let q = record r { last_hb = now_ms } in
        let k = send_peers-Quiet q (heartbeat r) 0 r.node_count (λ i t. refl) in
        rw b (
          Quiet-IsFaithful r _ record {
            node = k.node;
            term = k.term;
            voted = k.voted;
            votes = k.votes;
            stands = k.stands;
          })
    | inr b ↦ rw b (λ v. v)
  ])
  | inr f ↦ rw f (elim (Bool-cases (leb r.election_timeout (sub64 now_ms r.last_heartbeat))) [
    | inl b ↦ rw b (candidate-Carries r now_ms tsc l)
    | inr b ↦ rw b (λ v. v)
  ])
]

pub tick-Carries :
    (r : Raft) (now_ms tsc : ℕ) → r.current_term + 1 < 2 ^ 64 → Carries r (raft_tick r now_ms tsc)
unfolding raft_tick
tick-Carries r now_ms tsc l v =
    let n = r.commit_index - r.last_applied in
    let k = apply_loop-Quiet r n in
    tick_rest-Carries (apply_loop r n) now_ms tsc (omega (arith, l, k.term))
      (Quiet-IsFaithful r _ k v)

pub deactivate-Quiet : (r : Raft) (o : Option ℕ) → Quiet r (deactivate r o).1
deactivate-Quiet r none = same-Quiet r
deactivate-Quiet r (some i) = record {
  node = refl;
  term = refl;
  voted = refl;
  votes = λ j. refl;
  stands = λ h. h;
}

pub submit-Quiet :
    (r : Raft) (got : Bool) (kind : EntryKind) (payload : List ℕ)
    → Quiet r (raft_submit got r kind payload).1
unfolding raft_submit
submit-Quiet r got kind payload = elim (Bool-cases (is_leader r.state)) [
  | inl t ↦ rw t (appended-Quiet got r r.current_term kind payload)
  | inr f ↦ rw f (same-Quiet r)
]

pub add_node-Quiet :
    (r : Raft) (id : ℕ) (address : List ℕ) (port : ℕ) → Quiet r (raft_add_node r id address port).1
unfolding raft_add_node
add_node-Quiet r id address port = elim (Bool-cases (leb max_nodes r.node_count)) [
  | inl t ↦ rw t (same-Quiet r)
  | inr f ↦
      rw f record { node = refl; term = refl; voted = refl; votes = λ j. refl; stands = λ h. h }
]
