-- ===== src/Storage/Raft/Handlers.antt =====
-- The message handlers and the clock of src/storage/distributed.c. `tsc` is what `rdtsc` gives.
use purevisor.Base.{
  ◌<◌, ℕ, zero, suc, ◌+◌, ◌-◌, ◌/◌, ◌^◌, Bool, true, false, ◌&&◌, ◌||◌, not, List, ◌∷◌, Option,
  none, some, if◌then◌else◌, ltb, leb, ◌==◌, u32, add32, add64, sub64, update, count_below,
}
use purevisor.Storage.Block.{Status, done, failed}
use purevisor.Storage.Raft.{
  Raft, LogEntry, EntryKind, Message, vote_request, vote_response, append_request, append_response,
  other, is_candidate, is_leader, no_vote, heartbeat_ms, get_log_entry, term_of, get_last_log_term,
  send, send_peers, become_follower, become_candidate, become_leader, slot_of, raft_submit,
  raft_add_node, raft_remove_node,
}

-- if (hdr.term > current_term) become_follower(raft, hdr.term);
abbrev pub catch_up : Raft → ℕ → Raft
catch_up r term = if ltb r.current_term term then become_follower r term else r

abbrev pub is_up_to_date : Raft → ℕ → ℕ → Bool
is_up_to_date r last_log_index last_log_term =
    ltb (get_last_log_term r) last_log_term
    || ((last_log_term == get_last_log_term r) && leb r.last_index last_log_index)

-- Whether the vote is granted, past the change of term.
abbrev pub can_grant : Raft → ℕ → ℕ → ℕ → ℕ → Bool
can_grant r from_node term last_log_index last_log_term =
    (leb r.current_term term && ((r.voted_for == no_vote) || (r.voted_for == from_node)))
    && is_up_to_date r last_log_index last_log_term

abbrev pub grant : Raft → ℕ → ℕ → Raft
grant r from_node tsc = record r { voted_for = from_node; last_heartbeat = tsc }

unfoldable pub handle_vote_request : Raft → ℕ → ℕ → ℕ → ℕ → ℕ → Raft
handle_vote_request r from_node term last_log_index last_log_term tsc =
    let c = catch_up r term in
    let granted = can_grant c from_node term last_log_index last_log_term in
    let v = if granted then grant c from_node tsc else c in
    send v from_node (vote_response r.node_id c.current_term granted)

abbrev pub majority : Raft → ℕ
majority r = r.node_count / 2 + 1

abbrev pub count_vote : Raft → Raft
count_vote r =
    let v = record r { votes_received = add32 r.votes_received 1 } in
    if leb (majority r) v.votes_received then become_leader v else v

unfoldable pub handle_vote_response : Raft → ℕ → Bool → Raft
handle_vote_response r term granted =
    if ltb r.current_term term
    then become_follower r term
    else if not (is_candidate r.state) || not (term == r.current_term)
    then r
    else if granted
    then count_vote r
    else r

abbrev pub mismatches : Option LogEntry → ℕ → Bool
mismatches none prev_log_term = true
mismatches (some e) prev_log_term = not (e.term == prev_log_term)

abbrev pub respond : Raft → ℕ → Bool → ℕ → Raft
respond r to success match_index =
    send r to (append_response r.node_id r.current_term success match_index)

-- The leader is heard; a candidate steps down.
abbrev pub heed : Raft → ℕ → ℕ → ℕ → Raft
heed r from_node term tsc =
    let h = record r { leader_id = from_node; last_heartbeat = tsc } in
    if is_candidate h.state then become_follower h term else h

abbrev pub follow_commit : Raft → ℕ → Raft
follow_commit r leader_commit =
    if ltb r.commit_index leader_commit
    then record r {
      commit_index = if ltb r.last_index leader_commit then r.last_index else leader_commit;
    }
    else r

unfoldable pub handle_append_request : Raft → ℕ → ℕ → ℕ → ℕ → ℕ → ℕ → ℕ → Raft
handle_append_request r from_node term prev_index prev_term leader_commit entry_count tsc =
    let c = catch_up r term in
    let h = heed c from_node term tsc in
    if ltb term c.current_term
    then respond c from_node false 0
    else if ltb 0 prev_index && mismatches (get_log_entry h prev_index) prev_term
    then respond h from_node false 0
    else respond (follow_commit h leader_commit) from_node true (add64 prev_index entry_count)

-- How many nodes, the leader counted once, have entry `n`.
abbrev pub holders : Raft → ℕ → ℕ
holders r n = u32 (1 + count_below (λ i. leb n (r.nodes i).match_index) r.node_count)

abbrev pub has_term : Option LogEntry → ℕ → Bool
has_term none term = false
has_term (some e) term = e.term == term

abbrev pub can_commit : Raft → ℕ → Bool
can_commit r n = leb (majority r) (holders r n) && has_term (get_log_entry r n) r.current_term

-- The loop over `n`, with the rounds left.
unfoldable pub commit_loop : Raft → ℕ → ℕ → Raft
commit_loop r n zero = r
commit_loop r n (suc k) =
    commit_loop (if can_commit r n then record r { commit_index = n } else r) (n + 1) k

abbrev pub acknowledge : Raft → ℕ → ℕ → Raft
acknowledge r i index = record r {
  nodes = update r.nodes i (record (r.nodes i) { match_index = index; next_index = add64 index 1 });
}

abbrev pub back_up : Raft → ℕ → Raft
back_up r i = record r {
  nodes = update r.nodes i (record (r.nodes i) {
    next_index =
        if ltb 1 (r.nodes i).next_index then (r.nodes i).next_index - 1 else (r.nodes i).next_index;
  });
}

abbrev pub replied : Raft → Bool → ℕ → Option ℕ → Raft
replied r success index none = r
replied r success index (some i) =
    if success
    then commit_loop (acknowledge r i index) (r.commit_index + 1) (r.last_index - r.commit_index)
    else back_up r i

unfoldable pub handle_append_response : Raft → ℕ → ℕ → Bool → ℕ → Raft
handle_append_response r from_node term success index =
    if ltb r.current_term term
    then become_follower r term
    else if is_leader r.state
    then replied r success index (slot_of r from_node)
    else r

unfoldable pub raft_recv_message : Raft → Message → ℕ → Status × Raft
raft_recv_message r (vote_request from_node term index last_term) tsc =
    (done, handle_vote_request r from_node term index last_term tsc)
raft_recv_message r (vote_response from_node term granted) tsc =
    (done, handle_vote_response r term granted)
raft_recv_message r (append_request from_node term prev_index prev_term commit count) tsc =
    (done, handle_append_request r from_node term prev_index prev_term commit count tsc)
raft_recv_message r (append_response from_node term success index) tsc =
    (done, handle_append_response r from_node term success index)
raft_recv_message r other tsc = (failed, r)

abbrev pub apply_one : Raft → Option LogEntry → Raft
apply_one r none = r
apply_one r (some e) = record r { applied = if r.has_apply then e ∷ r.applied else r.applied }

-- while (last_applied < commit_index), with the rounds left.
unfoldable pub apply_loop : Raft → ℕ → Raft
apply_loop r zero = r
apply_loop r (suc n) =
    let a = record r { last_applied = add64 r.last_applied 1 } in
    apply_loop (apply_one a (get_log_entry a a.last_applied)) n

-- The heartbeat for slot `i`.
abbrev pub heartbeat : Raft → ℕ → Message
heartbeat r i =
    let prev = sub64 (r.nodes i).next_index 1 in
    append_request r.node_id r.current_term prev (term_of (get_log_entry r prev)) r.commit_index 0

-- The clock past the entries to apply.
abbrev pub tick_rest : Raft → ℕ → ℕ → Raft
tick_rest a now_ms tsc =
    if is_leader a.state
    then (if leb heartbeat_ms (sub64 now_ms a.last_hb)
        then send_peers (record a { last_hb = now_ms }) (heartbeat a) 0 a.node_count
        else a)
    else if leb a.election_timeout (sub64 now_ms a.last_heartbeat)
    then record (become_candidate a tsc) { last_heartbeat = now_ms }
    else a

unfoldable pub raft_tick : Raft → ℕ → ℕ → Raft
raft_tick r now_ms tsc = tick_rest (apply_loop r (r.commit_index - r.last_applied)) now_ms tsc

-- What may happen to a node: a message, the clock, a client's entry, a change of the cluster.
pub data Event : Type 0 where
  receive : Message → ℕ → Event
  tick : ℕ → ℕ → Event
  submit : Bool → EntryKind → List ℕ → Event
  add_node : ℕ → List ℕ → ℕ → Event
  remove_node : ℕ → Event

unfoldable pub step : Raft → Event → Raft
step r (receive m tsc) = (raft_recv_message r m tsc).1
step r (tick now_ms tsc) = raft_tick r now_ms tsc
step r (submit got kind payload) = (raft_submit got r kind payload).1
step r (add_node id address port) = (raft_add_node r id address port).1
step r (remove_node id) = (raft_remove_node r id).1

-- What a sequence of events reaches, as long as the term does not wrap.
pub data Reaches (r : Raft) : Raft → Type 0 where
  here : Reaches r r
  after :
      {q : Raft} → Reaches r q → (e : Event) → q.current_term + 1 < 2 ^ 64 → Reaches r (step q e)
