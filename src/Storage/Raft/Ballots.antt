-- ===== src/Storage/Raft/Ballots.antt =====
-- One vote for each term, kept by the two handlers of votes of src/storage/distributed.c.
use purevisor.Base.{
  ◌≢◌, add32, ℕ, zero, suc, ◌+◌, ◌≡◌, ◌<◌, inl, inr, refl, ◌∙◌, Bool, true, false, ◌||◌, not, List,
  [], if◌then◌else◌, ltb, leb, ◌==◌, arith, Bool-cases,
}
use mathlib.Core.Bool.{false≢true}
use purevisor.Storage.Raft.{
  no_vote, Raft, EntryKind, noop, Message, vote_response, is_candidate, is_peer, append_log_entry,
  is_full, send, send_peers, become_follower, become_leader, fresh_nodes, leader,
}
use purevisor.Storage.Raft.Handlers.{
  can_grant, grant, handle_vote_request, count_vote, majority, handle_vote_response,
}
use purevisor.Storage.Raft.Voting.{
  grants, IsFaithful, Quiet, Quiet-IsFaithful, Newer, Newer-IsFaithful, grant-IsFaithful,
}

abbrev pub Carries : Raft → Raft → Type 0
Carries r q = IsFaithful r → IsFaithful q

pub same-Quiet : (r : Raft) → Quiet r r
same-Quiet r = record { node = refl; term = refl; voted = refl; votes = λ t. refl; stands = λ h. h }

pub Quiet-trans : (r q s : Raft) → Quiet r q → Quiet q s → Quiet r s
Quiet-trans r q s f g = record {
  node = g.node ∙ f.node;
  term = g.term ∙ f.term;
  voted = g.voted ∙ f.voted;
  votes = λ t. g.votes t ∙ f.votes t;
  stands = λ h. f.stands (g.stands h);
}

pub send-Quiet :
    (r : Raft) (to : ℕ) (m : Message) → ((t : ℕ) → grants m t ≡ false) → Quiet r (send r to m)
send-Quiet r to m h = record {
  node = refl;
  term = refl;
  voted = refl;
  votes = λ t. ground (arith, h t);
  stands = λ e. e;
}

pub send_peers-Quiet :
    (r : Raft) (m : ℕ → Message) (i n : ℕ)
    → ((k t : ℕ) → grants (m k) t ≡ false)
    → Quiet r (send_peers r m i n)
unfolding send_peers
send_peers-Quiet r m i zero h = same-Quiet r
send_peers-Quiet r m i (suc n) h =
    let q = if is_peer r i then send r (r.nodes i).id (m i) else r in
    Quiet-trans r q (send_peers q m (i + 1) n)
      (elim (Bool-cases (is_peer r i)) [
        | inl t ↦ rw t (send-Quiet r (r.nodes i).id (m i) (h i))
        | inr f ↦ rw f (same-Quiet r)
      ])
      (send_peers-Quiet q m (i + 1) n h)

pub follower-Newer :
    (r : Raft) (term : ℕ) → r.current_term < term → Newer r (become_follower r term)
follower-Newer r term l = record {
  node = refl;
  term = l;
  votes = λ t. refl;
  stands = λ e. absurd (false≢true e);
}

-- The vote past the change of term.
ballot-Carries :
    (r : Raft) (f t i lt tsc : ℕ)
    → f ≢ no_vote
    → f ≢ r.node_id
    → Carries r (
        send
          (if can_grant r f t i lt then grant r f tsc else r)
          f
          (vote_response r.node_id r.current_term (can_grant r f t i lt)))
ballot-Carries r f t i lt tsc nf nn = elim (Bool-cases (can_grant r f t i lt)) [
  | inl g ↦ rw g (λ v. grant-IsFaithful r f tsc nf nn (ground (arith, g)) v)
  | inr g ↦ rw g (
      Quiet-IsFaithful r _
        (send-Quiet r f (vote_response r.node_id r.current_term false) (λ t. refl)))
]

pub vote_request-Carries :
    (r : Raft) (f t i lt tsc : ℕ)
    → f ≢ no_vote
    → f ≢ r.node_id
    → Carries r (handle_vote_request r f t i lt tsc)
unfolding handle_vote_request
vote_request-Carries r f t i lt tsc nf nn = elim (Bool-cases (ltb r.current_term t)) [
  | inl b ↦ rw b (λ v.
      ballot-Carries (become_follower r t) f t i lt tsc nf nn
        (Newer-IsFaithful r _ (follower-Newer r t (ground (arith, b))) v))
  | inr b ↦ rw b (ballot-Carries r f t i lt tsc nf nn)
]

pub appended-Quiet :
    (got : Bool) (r : Raft) (term : ℕ) (kind : EntryKind) (payload : List ℕ)
    → Quiet r (append_log_entry got r term kind payload).1
unfolding append_log_entry
appended-Quiet got r term kind payload = elim (Bool-cases (is_full r)) [
  | inl t ↦ rw t (same-Quiet r)
  | inr f ↦
      rw f record { node = refl; term = refl; voted = refl; votes = λ t. refl; stands = λ h. h }
]

become_leader-Quiet : (r : Raft) → Quiet r (become_leader r)
unfolding become_leader
become_leader-Quiet r =
    let l = record r { state = leader; leader_id = r.node_id; nodes = fresh_nodes r } in
    Quiet-trans r l _
      record {
        node = refl;
        term = refl;
        voted = refl;
        votes = λ t. refl;
        stands = λ e. absurd (false≢true e);
      }
      (appended-Quiet true l l.current_term noop [])

count_vote-Quiet : (r : Raft) → Quiet r (count_vote r)
count_vote-Quiet r =
    let v = record r { votes_received = add32 r.votes_received 1 } in
    let k : Quiet r v = record {
      node = refl;
      term = refl;
      voted = refl;
      votes = λ t. refl;
      stands = λ h. h;
    } in
    elim (Bool-cases (leb (majority r) v.votes_received)) [
      | inl t ↦ rw t (Quiet-trans r v _ k (become_leader-Quiet v))
      | inr f ↦ rw f k
    ]

pub vote_response-Carries :
    (r : Raft) (term : ℕ) (granted : Bool) → Carries r (handle_vote_response r term granted)
unfolding handle_vote_response
vote_response-Carries r term granted = elim (Bool-cases (ltb r.current_term term)) [
  | inl b ↦ rw b (Newer-IsFaithful r _ (follower-Newer r term (ground (arith, b))))
  | inr b ↦ rw b (elim (Bool-cases (not (is_candidate r.state) || not (term == r.current_term))) [
    | inl t ↦ rw t (λ v. v)
    | inr f ↦ rw f (elim (Bool-cases granted) [
      | inl t ↦ rw t (Quiet-IsFaithful r _ (count_vote-Quiet r))
      | inr g ↦ rw g (λ v. v)
    ])
  ])
]
