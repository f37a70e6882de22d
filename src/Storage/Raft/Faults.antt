-- ===== src/Storage/Raft/Faults.antt =====
-- What the handlers of src/storage/distributed.c do not guard against: votes counted twice, clocks that
-- are not the same, entries acknowledged and not stored, a vote forgotten.
use purevisor.Base.{
  subst, add32, ℕ, zero, suc, ◌+◌, ◌-◌, ◌^◌, ◌≡◌, ◌<◌, ◌≤◌, inl, inr, refl, sym, ap, ◌∙◌, true,
  false, ◌&&◌, ◌||◌, Bool, if◌then◌else◌, ◌∷◌, Option, none, some, ltb, leb, ◌==◌, add64, sub64,
  arith, Bool-cases,
}
use purevisor.Storage.Raft.{
  Raft, LogEntry, Message, vote_response, append_response, get_last_log_term, is_candidate,
  is_leader, is_peer, get_log_entry, append_log_entry, send, send_peers, become_candidate,
  become_leader,
}
use purevisor.Storage.Raft.Handlers.{
  majority, is_up_to_date, handle_vote_request, handle_vote_response, handle_append_request,
  apply_one, apply_loop, raft_tick,
}

-- `n` times the same granted vote, for the term of the node.
abbrev pub same_votes : Raft → ℕ → Raft
same_votes r zero = r
same_votes r (suc n) = same_votes (handle_vote_response r r.current_term true) n

become_leader-state : (r : Raft) → is_leader (become_leader r).state ≡ true
unfolding become_leader append_log_entry
become_leader-state r = ground arith

vote-outstanding :
    (r : Raft)
    → is_candidate r.state ≡ true
    → r.votes_received + 1 < 2 ^ 32
    → r.votes_received + 1 < majority r
    → handle_vote_response r r.current_term true
      ≡ record r { votes_received = r.votes_received + 1 }
unfolding handle_vote_response
vote-outstanding r c l m = ground (arith, c, l, m)

vote-decisive :
    (r : Raft)
    → is_candidate r.state ≡ true
    → r.votes_received + 1 < 2 ^ 32
    → r.votes_received + 1 ≡ majority r
    → is_leader (handle_vote_response r r.current_term true).state ≡ true
unfolding handle_vote_response
vote-decisive r c l m =
    let v = record r { votes_received = add32 r.votes_received 1 } in
    let old : ltb r.current_term r.current_term ≡ false = ground arith in
    let same : (r.current_term == r.current_term) ≡ true = ground arith in
    let enough : leb (majority r) v.votes_received ≡ true = ground (arith, l, m) in
    rw (old, c, same, enough) (become_leader-state v)

-- A candidate that lacks `n` votes for a majority of its nodes becomes leader with the last of them and
-- stays candidate before it, and one node that votes is enough: its response, received as often, is
-- counted each time. The counter does not wrap.
pub same_votes-leader :
    (r : Raft) (n : ℕ)
    → is_candidate r.state ≡ true
    → r.votes_received + n < 2 ^ 32
    → r.votes_received + n ≡ majority r
    → ((k : ℕ) → k < n → is_candidate (same_votes r k).state ≡ true)
      × (0 < n → is_leader (same_votes r n).state ≡ true)
same_votes-leader r zero c l e = (λ k h. absurd (omega (arith, h)), λ h. absurd (omega (arith, h)))
same_votes-leader r (suc zero) c l e = (
  λ k h. let k' : k ≡ 0 = omega (arith, h) in rw k' c,
  λ h. vote-decisive r c (omega (arith, l)) (omega (arith, e)),
)
same_votes-leader r (suc (suc n)) c l e =
    let q = record r { votes_received = r.votes_received + 1 } in
    let v = vote-outstanding r c (omega (arith, l)) (omega (arith, e)) in
    let (before, last) = same_votes-leader q (suc n) c (omega (arith, l)) (omega (arith, e)) in
    (
      λ k. elim k as (λ k. k < suc (suc n) → is_candidate (same_votes r k).state ≡ true) [
        | zero ↦ λ h. c
        | suc j ↦ λ h.
            subst (λ s. is_candidate (same_votes s j).state ≡ true) (sym v)
              (before j (omega (arith, h)))
      ],
      λ h. subst (λ s. is_leader (same_votes s (suc n)).state ≡ true) (sym v) (last (omega arith)),
    )

heard_lem :
    (r : Raft) (f t pi pt c n tsc : ℕ)
    → is_leader r.state ≡ false
    → r.current_term ≤ t
    → (is_leader (handle_append_request r f t pi pt c n tsc).state ≡ false)
      × ((handle_append_request r f t pi pt c n tsc).last_heartbeat ≡ tsc)
      × ((handle_append_request r f t pi pt c n tsc).election_timeout ≡ r.election_timeout)
unfolding handle_append_request get_log_entry
heard_lem r f t pi pt c n tsc nl l = ground (arith, nl, l)

apply_one_clock :
    (r : Raft) (o : Option LogEntry)
    → ((apply_one r o).state ≡ r.state)
      × ((apply_one r o).last_heartbeat ≡ r.last_heartbeat)
      × ((apply_one r o).election_timeout ≡ r.election_timeout)
apply_one_clock r none = (refl, refl, refl)
apply_one_clock r (some e) = (refl, refl, refl)

apply_loop_clock :
    (r : Raft) (n : ℕ)
    → ((apply_loop r n).state ≡ r.state)
      × ((apply_loop r n).last_heartbeat ≡ r.last_heartbeat)
      × ((apply_loop r n).election_timeout ≡ r.election_timeout)
unfolding apply_loop
apply_loop_clock r zero = (refl, refl, refl)
apply_loop_clock r (suc n) =
    let a = record r { last_applied = add64 r.last_applied 1 } in
    let o = get_log_entry a a.last_applied in
    let (s, h, e) = apply_loop_clock (apply_one a o) n in
    let (s', h', e') = apply_one_clock a o in (s ∙ s', h ∙ h', e ∙ e')

send_peers-state : (r : Raft) (m : ℕ → Message) (i n : ℕ) → (send_peers r m i n).state ≡ r.state
unfolding send_peers
send_peers-state r m i zero = refl
send_peers-state r m i (suc n) = elim (Bool-cases (is_peer r i)) [
  | inl t ↦ rw (t, send_peers) (send_peers-state (send r (r.nodes i).id (m i)) m (i + 1) n)
  | inr f ↦ rw (f, send_peers) (send_peers-state r m (i + 1) n)
]

become_candidate-state : (r : Raft) (tsc : ℕ) → is_candidate (become_candidate r tsc).state ≡ true
unfolding become_candidate
become_candidate-state r tsc = ap is_candidate (send_peers-state _ _ 0 r.node_count)

-- A node that hears from the leader of its term at the moment `tsc` of the processor's counter and is not
-- leader itself stands for election at the next tick, when the clock that tick is told, in milliseconds,
-- is behind the counter: it does not wait for the election timeout.
pub heard-candidate :
    (r : Raft) (f t pi pt c n tsc now_ms tsc' : ℕ)
    → is_leader r.state ≡ false
    → r.current_term ≤ t
    → now_ms < tsc
    → tsc < now_ms + 2 ^ 64 - 500
    → r.election_timeout ≤ 500
    → is_candidate (raft_tick (handle_append_request r f t pi pt c n tsc) now_ms tsc').state ≡ true
unfolding raft_tick
heard-candidate r f t pi pt c n tsc now_ms tsc' nl l lo hi e =
    let q = handle_append_request r f t pi pt c n tsc in
    let (nq, hq, eq) = heard_lem r f t pi pt c n tsc nl l in
    let k = q.commit_index - q.last_applied in
    let (s, h, e') = apply_loop_clock q k in
    let a = apply_loop q k in
    let na : is_leader a.state ≡ false = ap is_leader s ∙ nq in
    let late : leb a.election_timeout (sub64 now_ms a.last_heartbeat) ≡ true =
      ground (arith, h, hq, e', eq, lo, hi, e) in
    rw (na, late) (become_candidate-state a tsc')

-- Whether a node takes a request to append for one that fits: it is not of an older term, and the entry
-- before its entries is in the log, with the term that it names.
abbrev pub accepts : Raft → ℕ → ℕ → ℕ → Bool
accepts r t pi pt =
    leb r.current_term t && ((pi == 0) || (leb pi r.last_index && ((r.log pi).term == pt)))

-- Whatever a request to append says, and however many entries it carries, the log stays as it is; the one
-- message sent answers with the newer of both terms, and to a request that fits it says all the same that
-- the entries are there, up to the last of them; to any other it says no. Messages can be sent, and no
-- entry was dropped from the front of the log.
pub append_request-log :
    (r : Raft) (f t pi pt c n tsc : ℕ)
    → r.has_send ≡ true
    → r.first_index ≡ 0
    → ((handle_append_request r f t pi pt c n tsc).last_index ≡ r.last_index)
      × ((handle_append_request r f t pi pt c n tsc).log ≡ r.log)
      × ((handle_append_request r f t pi pt c n tsc).sent
          ≡ record {
            to = f;
            message =
                append_response r.node_id
                  (if ltb t r.current_term then r.current_term else t)
                  (accepts r t pi pt)
                  (if accepts r t pi pt then add64 pi n else 0);
          }
            ∷ r.sent)
unfolding handle_append_request get_log_entry
append_request-log r f t pi pt c n tsc h z = ground (arith, h, z)

-- A candidate that hears from a leader of its own term forgets whom it voted for, itself: it grants its
-- vote in that same term to the next node that asks for it with a log as good as its own. Messages can be
-- sent.
pub stood_down-grants :
    (r : Raft) (f pi pt c n tsc g li lt tsc' : ℕ)
    → is_candidate r.state ≡ true
    → r.voted_for ≡ r.node_id
    → r.has_send ≡ true
    → is_up_to_date r li lt ≡ true
    → let q = handle_append_request r f r.current_term pi pt c n tsc in
      let v = handle_vote_request q g r.current_term li lt tsc' in
      (v.current_term ≡ r.current_term)
      × (v.voted_for ≡ g)
      × (v.sent ≡ record { to = g; message = vote_response r.node_id r.current_term true } ∷ q.sent)
unfolding handle_append_request handle_vote_request get_log_entry get_last_log_term
stood_down-grants r f pi pt c n tsc g li lt tsc' s o h u = ground (arith, s, h, u)
