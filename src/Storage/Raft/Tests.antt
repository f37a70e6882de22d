-- ===== src/Storage/Raft/Tests.antt =====
-- The theorems on consensus and replicated storage at small clusters.
use purevisor.Base.{
  ℕ, ◌+◌, ◌-◌, ◌≡◌, ◌<◌, refl, true, false, [], ◌∷◌, arith, Member, replicate, first_from,
}
use purevisor.Storage.Block.{Bank, Device, done, block_write}
use purevisor.Storage.MemBlock.{MemDisk, mem_submit}
use purevisor.Storage.Pool.{pool_create}
use purevisor.Storage.Volume.{Volume}
use purevisor.Storage.Raft.{
  Raft, RaftNode, LogEntry, write, candidate, leader, is_candidate, is_leader, vote_request,
  vote_response, append_response, raft_init, raft_add_node, become_candidate, send_peers,
  get_last_log_term,
}
use purevisor.Storage.Raft.Handlers.{
  here, after, step, tick, receive, add_node, raft_tick, apply_loop, raft_recv_message,
  handle_vote_request, handle_append_request, handle_append_response,
}
use purevisor.Storage.Raft.Order.{IsOrdered, Extends}
use purevisor.Storage.Raft.Steps.{Reaches-Extends}
use purevisor.Storage.Raft.Voting.{votes_in}
use purevisor.Storage.Raft.Elections.{connected, start, next, one_vote_in_term}
use purevisor.Storage.Raft.Commits.{
  IsSettled, append_response-IsSettled, entries_from, tick-applied,
}
use purevisor.Storage.Raft.Faults.{
  same_votes, same_votes-leader, heard-candidate, append_request-log,
}
use purevisor.Storage.Distributed.{Dist, dist_storage_write, apply_storage_entry, put_back}
use purevisor.Storage.Distributed.Replay.{write-applied}

-- A node that joins another, stands for election and is elected.
abbrev standing : Raft
standing = step (step (raft_init 1 0) (add_node 2 [] 5000)) (tick 1000 5)

abbrev elected : Raft
elected = step standing (receive (vote_response 2 1 true) 6)

Reaches-Extends_example : IsOrdered elected × Extends standing elected
unfolding raft_init step raft_add_node raft_tick apply_loop become_candidate send_peers
Reaches-Extends_example =
    Reaches-Extends 1 0
      (after (after here (add_node 2 [] 5000) (omega arith)) (tick 1000 5) (omega arith))
      (after here (receive (vote_response 2 1 true) 6) (omega arith))

-- Two nodes ask for a vote in the same term.
abbrev asked : Raft
asked =
    step (step (connected 1 0) (receive (vote_request 2 1 0 0) 7))
      (receive (vote_request 3 1 0 0) 8)

one_vote_in_term_example :
    ((t a b : ℕ) → Member a (votes_in t asked.sent) → Member b (votes_in t asked.sent) → a ≡ b)
    × (is_candidate asked.state ≡ true
        → (votes_in asked.current_term asked.sent ≡ []) × (asked.voted_for ≡ asked.node_id))
unfolding raft_init step raft_recv_message handle_vote_request get_last_log_term
one_vote_in_term_example =
    one_vote_in_term 1 0 (λ e. absurd (omega (arith, e)))
      (next
        (next start (receive (vote_request 2 1 0 0) 7)
          ((λ e. absurd (omega (arith, e))), (λ e. absurd (omega (arith, e)))) (omega arith))
        (receive (vote_request 3 1 0 0) 8)
        ((λ e. absurd (omega (arith, e))), (λ e. absurd (omega (arith, e)))) (omega arith))

-- Both asked, and one has the vote.
one_of_two : votes_in 1 asked.sent ≡ 2 ∷ []
unfolding raft_init step raft_recv_message handle_vote_request get_last_log_term
one_of_two = refl

abbrev entry_one : LogEntry
entry_one = record { index = 1; term = 1; kind = write; data_len = 1; payload = 7 ∷ [] }

abbrev peer : RaftNode
peer = record { id = 2; address = []; port = 1; active = true; next_index = 1; match_index = 0 }

-- A leader of one other node, with one entry that is not committed.
abbrev leading : Raft
leading = record (raft_init 1 0) {
  state = leader;
  current_term = 1;
  log = λ i. record entry_one { index = i };
  last_index = 1;
  nodes = λ i. peer;
  node_count = 1;
  has_apply = true;
  has_send = true;
}

leading-IsOrdered : IsOrdered leading
unfolding raft_init
leading-IsOrdered = record {
  first = refl;
  fits = omega arith;
  committed = omega arith;
  applied = omega arith;
  indexed = λ i p l. refl;
}

append_response-IsSettled_example :
    IsSettled (handle_append_response leading 2 1 true 1) leading.commit_index
    × (((handle_append_response leading 2 1 true 1).nodes 0).match_index ≡ 1)
unfolding raft_init first_from
append_response-IsSettled_example =
    append_response-IsSettled leading 2 1 1 0 refl (omega arith) refl (omega arith)
      leading-IsOrdered

abbrev committed_one : Raft
committed_one = record leading { commit_index = 1 }

committed_one-IsOrdered : IsOrdered committed_one
unfolding raft_init
committed_one-IsOrdered = record {
  first = refl;
  fits = omega arith;
  committed = omega arith;
  applied = omega arith;
  indexed = λ i p l. refl;
}

tick-applied_example :
    ((raft_tick committed_one 10 3).applied
      ≡ entries_from committed_one.log
          (committed_one.last_applied + 1)
          (committed_one.commit_index - committed_one.last_applied)
          committed_one.applied)
    × ((raft_tick committed_one 10 3).last_applied ≡ committed_one.commit_index)
tick-applied_example = tick-applied committed_one 10 3 refl committed_one-IsOrdered

-- A candidate of a cluster of four others.
abbrev running : Raft
running = record (raft_init 1 0) {
  state = candidate;
  current_term = 1;
  votes_received = 1;
  node_count = 4;
}

same_votes-leader_example :
    ((k : ℕ) → k < 2 → is_candidate (same_votes running k).state ≡ true)
    × (0 < 2 → is_leader (same_votes running 2).state ≡ true)
unfolding raft_init
same_votes-leader_example = same_votes-leader running 2 refl (omega arith) (omega arith)

heard-candidate_example :
    is_candidate
      (raft_tick (handle_append_request (raft_init 1 0) 2 1 0 0 0 0 900000) 100000 3).state
    ≡ true
unfolding raft_init
heard-candidate_example =
    heard-candidate (raft_init 1 0) 2 1 0 0 0 0 900000 100000 3 refl (omega arith) (omega arith)
      (omega arith) (omega arith)

append_request-log_example :
    ((handle_append_request (connected 1 0) 2 1 0 0 0 5 7).last_index ≡ (connected 1 0).last_index)
    × ((handle_append_request (connected 1 0) 2 1 0 0 0 5 7).log ≡ (connected 1 0).log)
    × ((handle_append_request (connected 1 0) 2 1 0 0 0 5 7).sent
        ≡ record { to = 2; message = append_response 1 1 true 5 } ∷ (connected 1 0).sent)
unfolding raft_init
append_request-log_example = append_request-log (connected 1 0) 2 1 0 0 0 5 7 refl refl

-- The same node asked for entries after one that it does not have.
mismatch_refused :
    (handle_append_request (connected 1 0) 2 1 4 1 0 5 7).sent
    ≡ record { to = 2; message = append_response 1 1 false 0 } ∷ (connected 1 0).sent
unfolding raft_init
mismatch_refused = (append_request-log (connected 1 0) 2 1 4 1 0 5 7 refl refl).2

-- A candidate of term 1.
abbrev candidate_one : Raft
candidate_one = record (connected 1 0) { state = candidate; current_term = 1; voted_for = 1 }

abbrev volume_v : Volume
volume_v = record {
  name = 118 ∷ [];
  id = 1;
  size = 16;
  allocated = 0;
  replication = 0;
  thin_provisioned = true;
  online = true;
  extent_map = λ i. 0;
  num_extents = 1;
}

abbrev disk_device : Device
disk_device = record {
  name = 118 ∷ [];
  uuid = [];
  id = 1;
  size = 16;
  block_size = 4096;
  num_blocks = 0;
  readonly = false;
  online = true;
  has_ops = true;
  has_submit = true;
  has_flush = true;
  read_ops = 0;
  write_ops = 0;
  read_bytes = 0;
  write_bytes = 0;
  errors = 0;
  queue_depth = 0;
  max_queue_depth = 32;
}

abbrev disk_bank : Bank (ℕ → MemDisk)
disk_bank = record {
  device = λ a. disk_device;
  devices = 5 ∷ [];
  device_count = 1;
  next_device_id = 2;
  initialized = true;
  below = λ a. record { memory = replicate 16 0; mem_size = 16 };
}

-- The leader of a cluster with one volume, `v`, at address 5.
abbrev dist : Dist (ℕ → MemDisk)
dist = record {
  bank = disk_bank;
  local_pool = record (pool_create 1 []) { volumes = 5 ∷ [] };
  volume = λ a. volume_v;
  raft = leading;
  cluster_name = [];
  cluster_uuid = [];
  initialized = true;
  is_primary = false;
  replicated_writes = 0;
  consensus_ops = 0;
  next_remote = 100;
}

write-applied_example :
    ((dist_storage_write true true dist (118 ∷ []) 3 (9 ∷ 8 ∷ []) 2).0 ≡ done)
    × (apply_storage_entry mem_submit true dist
          ((dist_storage_write true true dist (118 ∷ []) 3 (9 ∷ 8 ∷ []) 2).1.raft.log 2)
        ≡ put_back dist (block_write mem_submit true dist.bank 5 3 (9 ∷ 8 ∷ []) 2))
unfolding raft_init
write-applied_example =
    write-applied mem_submit dist (118 ∷ []) 3 (9 ∷ 8 ∷ [])
      (dist_storage_write true true dist (118 ∷ []) 3 (9 ∷ 8 ∷ []) 2).1.raft true dist refl refl
      refl leading-IsOrdered (omega arith) ((λ e. absurd (omega (arith, e))), tt) (omega arith)
      (omega arith) here (λ e. absurd (omega (arith, e)))
