-- ===== src/Storage/Raft/Elections.antt =====
-- One vote for each term, from the start on: the events of src/storage/distributed.c.
use purevisor.Base.{All-Member, Member, ◌≢◌, ℕ, ◌+◌, ◌^◌, ◌≡◌, ◌<◌, refl, sym, ◌∙◌, true, []}
use mathlib.Core.Bool.{false≢true}
use purevisor.Storage.Raft.{
  no_vote, Raft, vote_request, vote_response, append_request, append_response, other, is_candidate,
  slot_of, raft_remove_node, raft_init,
}
use purevisor.Storage.Raft.Handlers.{
  raft_recv_message, Event, receive, tick, submit, add_node, remove_node, step,
}
use purevisor.Storage.Raft.Voting.{votes_in, IsFaithful, Quiet-IsFaithful}
use purevisor.Storage.Raft.Ballots.{Carries, vote_request-Carries, vote_response-Carries}
use purevisor.Storage.Raft.Requests.{
  append_request-Carries, append_response-Carries, tick-Carries, deactivate-Quiet, submit-Quiet,
  add_node-Quiet,
}

-- Whoever asks for a vote is another node, not the one without a number.
abbrev pub IsForeign : Raft → Event → Type 0
IsForeign r (receive (vote_request f t i lt) tsc) = (f ≢ no_vote) × (f ≢ r.node_id)
IsForeign r (receive (vote_response f t g) tsc) = Unit
IsForeign r (receive (append_request f t pi pt c n) tsc) = Unit
IsForeign r (receive (append_response f t s i) tsc) = Unit
IsForeign r (receive other tsc) = Unit
IsForeign r (tick now_ms tsc) = Unit
IsForeign r (submit got kind payload) = Unit
IsForeign r (add_node id address port) = Unit
IsForeign r (remove_node id) = Unit

step-Carries :
    (r : Raft) (e : Event) → IsForeign r e → r.current_term + 1 < 2 ^ 64 → Carries r (step r e)
unfolding step raft_remove_node raft_recv_message
step-Carries r (receive (vote_request f t i lt) tsc) h l =
    vote_request-Carries r f t i lt tsc h.0 h.1
step-Carries r (receive (vote_response f t g) tsc) h l = vote_response-Carries r t g
step-Carries r (receive (append_request f t pi pt c n) tsc) h l =
    append_request-Carries r f t pi pt c n tsc
step-Carries r (receive (append_response f t s i) tsc) h l = append_response-Carries r f t s i
step-Carries r (receive other tsc) h l = λ v. v
step-Carries r (tick now_ms tsc) h l = tick-Carries r now_ms tsc l
step-Carries r (submit got kind payload) h l =
    Quiet-IsFaithful r _ (submit-Quiet r got kind payload)
step-Carries r (add_node id address port) h l =
    Quiet-IsFaithful r _ (add_node-Quiet r id address port)
step-Carries r (remove_node id) h l = Quiet-IsFaithful r _ (deactivate-Quiet r (slot_of r id))

-- What a sequence of events reaches, when no term wraps and votes are asked for by other nodes.
pub data Polls (r : Raft) : Raft → Type 0 where
  start : Polls r r
  next :
      {q : Raft}
      → Polls r q
      → (e : Event) → IsForeign q e
      → q.current_term + 1 < 2 ^ 64
      → Polls r (step q e)

-- A fresh node whose `send_message` is set.
abbrev pub connected : ℕ → ℕ → Raft
connected id tsc = record (raft_init id tsc) { has_send = true }

connected-IsFaithful : (id tsc : ℕ) → id ≢ no_vote → IsFaithful (connected id tsc)
unfolding raft_init
connected-IsFaithful id tsc h = record {
  future = λ t l. refl;
  current = tt;
  standing = λ e. absurd (false≢true e);
  unique = λ t. (0, tt);
  real = λ t. tt;
  named = h;
}

Polls-IsFaithful : (r : Raft) {q : Raft} → Polls r q → Carries r q
Polls-IsFaithful r start v = v
Polls-IsFaithful r (next {q = u} p e h l) v = step-Carries u e h l (Polls-IsFaithful r p v)

-- Whatever messages arrive at a node after its start, and in whatever order they, the ticks of the clock
-- and the changes of the cluster come, the node grants its vote in any one term to one other node only; and
-- at any moment at which it is a candidate, its vote is its own and it has granted none in its term so far.
-- The node can send messages, votes are asked for by other nodes with a number of their own, and the term
-- does not wrap.
pub one_vote_in_term :
    (id tsc : ℕ) {q : Raft}
    → id ≢ no_vote
    → Polls (connected id tsc) q
    → ((t a b : ℕ) → Member a (votes_in t q.sent) → Member b (votes_in t q.sent) → a ≡ b)
      × (is_candidate q.state ≡ true
          → (votes_in q.current_term q.sent ≡ []) × (q.voted_for ≡ q.node_id))
one_vote_in_term id tsc {q} h p =
    let v = Polls-IsFaithful (connected id tsc) p (connected-IsFaithful id tsc h) in
    (
      λ t a b m n.
          let (d, u) = v.unique t in
          All-Member (λ x. x ≡ d) (votes_in t q.sent) u a m
          ∙ sym (All-Member (λ x. x ≡ d) (votes_in t q.sent) u b n),
      v.standing,
    )
