-- ===== src/Storage/Raft.antt =====
-- Consensus for storage: the first part of src/storage/distributed.c, over
-- include/storage/distributed.h. Messages sent and entries applied are logged, newest first.
pub mod Ballots
pub mod Commits
pub mod Elections
pub mod Faults
pub mod Handlers
pub mod Order
pub mod Progress
pub mod Requests
pub mod Steps
mod Tests
pub mod Voting
use purevisor.Base.{
  ℕ, zero, suc, ◌+◌, ◌-◌, ◌/◌, ◌%◌, ◌^◌, Bool, true, false, ◌&&◌, ◌||◌, not, List, [], ◌∷◌, Option,
  none, some, if◌then◌else◌, ltb, leb, ◌==◌, add32, add64, sub64, update, take, length, first_from,
}
use purevisor.Storage.Block.{Status, done, failed}

-- RAFT_FOLLOWER and the two others.
pub data Role : Type 0 where
  follower candidate leader : Role

abbrev pub is_candidate : Role → Bool
is_candidate candidate = true
is_candidate _ = false

abbrev pub is_leader : Role → Bool
is_leader leader = true
is_leader _ = false

-- RAFT_LOG_NOOP and the three others.
pub data EntryKind : Type 0 where
  noop write config snapshot : EntryKind

-- `raft_log_entry_t`; `payload` is empty where `data` is NULL.
pub record LogEntry : Type 0 where
  pub index : ℕ
  pub term : ℕ
  pub kind : EntryKind
  pub data_len : ℕ
  pub payload : List ℕ

-- `raft_node_info_t`.
pub record RaftNode : Type 0 where
  pub id : ℕ
  pub address : List ℕ
  pub port : ℕ
  pub active : Bool
  pub next_index : ℕ
  pub match_index : ℕ

-- The messages: each with its sender and its term. `other` is any other type.
pub data Message : Type 0 where
  vote_request : ℕ → ℕ → ℕ → ℕ → Message
  vote_response : ℕ → ℕ → Bool → Message
  append_request : ℕ → ℕ → ℕ → ℕ → ℕ → ℕ → Message
  append_response : ℕ → ℕ → Bool → ℕ → Message
  other : Message

-- A call of `send_message`.
pub record Sent : Type 0 where
  pub to : ℕ
  pub message : Message

-- `raft_context_t`, with the static `last_hb` of `raft_tick`; the log and the nodes by slot.
-- `voted_for` is the 32-bit pattern of the source's value.
pub record Raft : Type 0 where
  pub node_id : ℕ
  pub state : Role
  pub current_term : ℕ
  pub voted_for : ℕ
  pub log : ℕ → LogEntry
  pub first_index : ℕ
  pub last_index : ℕ
  pub commit_index : ℕ
  pub last_applied : ℕ
  pub leader_id : ℕ
  pub nodes : ℕ → RaftNode
  pub node_count : ℕ
  pub votes_received : ℕ
  pub last_heartbeat : ℕ
  pub election_timeout : ℕ
  pub last_hb : ℕ
  pub has_send : Bool
  pub has_apply : Bool
  pub sent : List Sent
  pub applied : List LogEntry

-- -1
abbrev pub no_vote : ℕ
no_vote = 4294967295

-- RAFT_LOG_SIZE, RAFT_MAX_NODES and RAFT_HEARTBEAT_MS
abbrev pub log_size : ℕ
log_size = 1024

abbrev pub max_nodes : ℕ
max_nodes = 16

abbrev pub heartbeat_ms : ℕ
heartbeat_ms = 150

-- `get_random_timeout` between 300 and 500 ms.
abbrev pub random_timeout : ℕ → ℕ
random_timeout tsc = 300 + tsc % 200

-- `none` is NULL.
unfoldable pub get_log_entry : Raft → ℕ → Option LogEntry
get_log_entry r index =
    if ltb index r.first_index || ltb r.last_index index
    then none
    else some (r.log (index - r.first_index))

abbrev pub term_of : Option LogEntry → ℕ
term_of none = 0
term_of (some e) = e.term

unfoldable pub get_last_log_term : Raft → ℕ
get_last_log_term r = if r.last_index == 0 then 0 else term_of (get_log_entry r r.last_index)

-- The entry as it stands in the log: `got` says whether its copy of the payload found memory.
abbrev pub new_entry : Bool → ℕ → ℕ → EntryKind → List ℕ → LogEntry
new_entry got index term kind payload = record {
  index = index;
  term = term;
  kind = kind;
  data_len = length payload;
  payload = if got then payload else [];
}

abbrev pub is_empty : List ℕ → Bool
is_empty [] = true
is_empty (b ∷ bs) = false

abbrev pub is_full : Raft → Bool
is_full r = leb (log_size - 1) (sub64 r.last_index r.first_index)

abbrev pub appended : Bool → Raft → ℕ → EntryKind → List ℕ → Raft
appended got r term kind payload =
    let idx = add64 r.last_index 1 in
    record r {
      last_index = idx;
      log = update r.log (sub64 idx r.first_index) (new_entry got idx term kind payload);
    }

-- A copy that finds no memory leaves the entry in the log, without its payload. Every caller that passes
-- NULL passes the length 0.
unfoldable pub append_log_entry : Bool → Raft → ℕ → EntryKind → List ℕ → Status × Raft
append_log_entry got r term kind payload =
    if is_full r
    then (failed, r)
    else (if got || is_empty payload then done else failed, appended got r term kind payload)

abbrev pub send : Raft → ℕ → Message → Raft
send r to m = record r {
  sent = if r.has_send then record { to = to; message = m } ∷ r.sent else r.sent;
}

abbrev pub become_follower : Raft → ℕ → Raft
become_follower r term = record r {
  state = follower;
  current_term = term;
  voted_for = no_vote;
  votes_received = 0;
}

-- Whether a message is sent to the node of slot `i`.
abbrev pub is_peer : Raft → ℕ → Bool
is_peer r i = not ((r.nodes i).id == r.node_id) && (r.nodes i).active

-- for (i = 0; i < node_count; i++): the slots from `i` on, and the rounds left.
unfoldable pub send_peers : Raft → (ℕ → Message) → ℕ → ℕ → Raft
send_peers r m i zero = r
send_peers r m i (suc n) =
    send_peers (if is_peer r i then send r (r.nodes i).id (m i) else r) m (i + 1) n

unfoldable pub become_candidate : Raft → ℕ → Raft
become_candidate r tsc =
    let c = record r {
      state = candidate;
      current_term = add64 r.current_term 1;
      voted_for = r.node_id;
      votes_received = 1;
      election_timeout = random_timeout tsc;
    } in
    send_peers c (λ i. vote_request c.node_id c.current_term c.last_index (get_last_log_term c)) 0
      c.node_count

-- What the leader assumes of a node when it starts.
abbrev pub fresh_nodes : Raft → ℕ → RaftNode
fresh_nodes r i =
    if ltb i r.node_count
    then record (r.nodes i) { next_index = add64 r.last_index 1; match_index = 0 }
    else r.nodes i

unfoldable pub become_leader : Raft → Raft
become_leader r =
    let l = record r { state = leader; leader_id = r.node_id; nodes = fresh_nodes r } in
    (append_log_entry true l l.current_term noop []).1

unfoldable pub raft_init : ℕ → ℕ → Raft
raft_init node_id tsc = record {
  node_id = node_id;
  state = follower;
  current_term = 0;
  voted_for = no_vote;
  log = λ i. record { index = 0; term = 0; kind = noop; data_len = 0; payload = [] };
  first_index = 0;
  last_index = 0;
  commit_index = 0;
  last_applied = 0;
  leader_id = 0;
  nodes = λ i. record {
    id = 0;
    address = [];
    port = 0;
    active = false;
    next_index = 0;
    match_index = 0;
  };
  node_count = 0;
  votes_received = 0;
  last_heartbeat = 0;
  election_timeout = random_timeout tsc;
  last_hb = 0;
  has_send = false;
  has_apply = false;
  sent = [];
  applied = [];
}

unfoldable pub raft_add_node : Raft → ℕ → List ℕ → ℕ → Status × Raft
raft_add_node r id address port = if leb max_nodes r.node_count then (failed, r) else (
  done,
  record r {
    nodes = update r.nodes r.node_count (record {
      id = id;
      address = take 63 address;
      port = port;
      active = true;
      next_index = add64 r.last_index 1;
      match_index = 0;
    });
    node_count = add32 r.node_count 1;
  },
)

-- The slot of the node `id`, if there is one.
abbrev pub slot_of : Raft → ℕ → Option ℕ
slot_of r id = first_from (λ i. (r.nodes i).id == id) 0 r.node_count

abbrev pub deactivate : Raft → Option ℕ → Status × Raft
deactivate r none = (failed, r)
deactivate r (some i) =
    (done, record r { nodes = update r.nodes i (record (r.nodes i) { active = false }) })

unfoldable pub raft_remove_node : Raft → ℕ → Status × Raft
raft_remove_node r id = deactivate r (slot_of r id)

unfoldable pub raft_submit : Bool → Raft → EntryKind → List ℕ → Status × Raft
raft_submit got r kind payload =
    if is_leader r.state then append_log_entry got r r.current_term kind payload else (failed, r)

abbrev pub raft_is_leader : Raft → Bool
raft_is_leader r = is_leader r.state

abbrev pub raft_get_leader : Raft → ℕ
raft_get_leader r = r.leader_id
