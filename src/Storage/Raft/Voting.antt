-- ===== src/Storage/Raft/Voting.antt =====
-- One vote for each term: `handle_vote_request` and what else writes `voted_for` in
-- src/storage/distributed.c.
use purevisor.Base.{
  subst, All, ◌≢◌, ℕ, ◌≡◌, ◌<◌, ◌⊎◌, inl, inr, refl, sym, ap, ◌∙◌, Bool, true, false, ◌||◌, List,
  [], ◌∷◌, if◌then◌else◌, ◌==◌, arith, Bool-cases,
}
use mathlib.Core.Bool.{false≢true}
use purevisor.Storage.Raft.{
  Sent, no_vote, Raft, Message, vote_request, vote_response, append_request, append_response, other,
  is_candidate, send, become_follower,
}
use purevisor.Storage.Raft.Handlers.{grant}

-- Whether the message grants a vote of the term.
abbrev pub grants : Message → ℕ → Bool
grants (vote_response f t true) term = t == term
grants (vote_response f t false) term = false
grants (vote_request f t i lt) term = false
grants (append_request f t pi pt c n) term = false
grants (append_response f t s i) term = false
grants other term = false

-- Whom the votes of the term were sent to.
abbrev pub votes_in : ℕ → List Sent → List ℕ
votes_in term [] = []
votes_in term (s ∷ ss) = if grants s.message term then s.to ∷ votes_in term ss else votes_in term ss

pub record IsFaithful (r : Raft) : Type 0 where
  pub future : (t : ℕ) → r.current_term < t → votes_in t r.sent ≡ []
  pub current : All (λ d. d ≡ r.voted_for) (votes_in r.current_term r.sent)
  pub standing :
      is_candidate r.state ≡ true
      → (votes_in r.current_term r.sent ≡ []) × (r.voted_for ≡ r.node_id)
  pub unique : (t : ℕ) → (d : ℕ) × All (λ x. x ≡ d) (votes_in t r.sent)
  pub real : (t : ℕ) → All (λ d. d ≢ no_vote) (votes_in t r.sent)
  pub named : r.node_id ≢ no_vote

-- A change that sends no vote and leaves the term and the vote.
pub record Quiet (r q : Raft) : Type 0 where
  pub node : q.node_id ≡ r.node_id
  pub term : q.current_term ≡ r.current_term
  pub voted : q.voted_for ≡ r.voted_for
  pub votes : (t : ℕ) → votes_in t q.sent ≡ votes_in t r.sent
  pub stands : is_candidate q.state ≡ true → is_candidate r.state ≡ true

pub Quiet-IsFaithful : (r q : Raft) → Quiet r q → IsFaithful r → IsFaithful q
Quiet-IsFaithful r q c v = record {
  future = λ t l. c.votes t ∙ v.future t (omega (arith, l, c.term));
  current =
      subst (λ l. All (λ d. d ≡ q.voted_for) l) (sym (c.votes q.current_term))
        (subst (λ k. All (λ d. d ≡ q.voted_for) (votes_in k r.sent)) (sym c.term)
          (subst (λ w. All (λ d. d ≡ w) (votes_in r.current_term r.sent)) (sym c.voted) v.current));
  standing = λ h.
      let (e, w) = v.standing (c.stands h) in
      (c.votes q.current_term ∙ ap (λ k. votes_in k r.sent) c.term ∙ e, c.voted ∙ w ∙ sym c.node);
  unique = λ t. let (d, h) = v.unique t in (d, subst (λ l. All (λ x. x ≡ d) l) (sym (c.votes t)) h);
  real = λ t. subst (λ l. All (λ d. d ≢ no_vote) l) (sym (c.votes t)) (v.real t);
  named = λ e. v.named (sym c.node ∙ e);
}

-- A change to a newer term, with no vote sent.
pub record Newer (r q : Raft) : Type 0 where
  pub node : q.node_id ≡ r.node_id
  pub term : r.current_term < q.current_term
  pub votes : (t : ℕ) → votes_in t q.sent ≡ votes_in t r.sent
  pub stands : is_candidate q.state ≡ true → q.voted_for ≡ q.node_id

pub Newer-IsFaithful : (r q : Raft) → Newer r q → IsFaithful r → IsFaithful q
Newer-IsFaithful r q c v =
    let none_yet : votes_in q.current_term q.sent ≡ [] =
      c.votes q.current_term ∙ v.future q.current_term c.term in
    record {
      future = λ t l. c.votes t ∙ v.future t (omega (arith, l, c.term));
      current = subst (λ l. All (λ d. d ≡ q.voted_for) l) (sym none_yet) tt;
      standing = λ h. (none_yet, c.stands h);
      unique =
          λ t. let (d, h) = v.unique t in (d, subst (λ l. All (λ x. x ≡ d) l) (sym (c.votes t)) h);
      real = λ t. subst (λ l. All (λ d. d ≢ no_vote) l) (sym (c.votes t)) (v.real t);
      named = λ e. v.named (sym c.node ∙ e);
    }

-- A candidate that steps down in its own term.
pub stand_down-IsFaithful :
    (r : Raft)
    → is_candidate r.state ≡ true
    → IsFaithful r
    → IsFaithful (become_follower r r.current_term)
stand_down-IsFaithful r h v = record {
  future = v.future;
  current = subst (λ l. All (λ d. d ≡ no_vote) l) (sym (v.standing h).0) tt;
  standing = λ e. absurd (false≢true e);
  unique = v.unique;
  real = v.real;
  named = v.named;
}

All-clash :
    (P : ℕ → Type 0) (xs : List ℕ)
    → All (λ d. d ≡ no_vote) xs
    → All (λ d. d ≢ no_vote) xs
    → All P xs
All-clash P [] h k = tt
All-clash P (x ∷ xs) h k = absurd (k.0 h.0)

-- The message of a vote that is granted to `f`.
abbrev pub voted : Raft → ℕ → ℕ → Raft
voted r f tsc = send (grant r f tsc) f (vote_response r.node_id r.current_term true)

voted_other :
    (r : Raft) (f tsc t : ℕ)
    → t ≢ r.current_term
    → votes_in t (voted r f tsc).sent ≡ votes_in t r.sent
voted_other r f tsc t ne = ground (arith, ne)

voted_same :
    (r : Raft) (f tsc : ℕ)
    → (votes_in r.current_term (voted r f tsc).sent ≡ votes_in r.current_term r.sent)
      ⊎ (votes_in r.current_term (voted r f tsc).sent ≡ f ∷ votes_in r.current_term r.sent)
voted_same r f tsc = ground arith

voted-All :
    (P : ℕ → Type 0) (r : Raft) (f tsc : ℕ)
    → P f
    → All P (votes_in r.current_term r.sent)
    → All P (votes_in r.current_term (voted r f tsc).sent)
voted-All P r f tsc p h = elim (voted_same r f tsc) [
  | inl e ↦ subst (All P) (sym e) h
  | inr e ↦ subst (All P) (sym e) (p, h)
]

voted-All_other :
    (P : ℕ → Type 0) (r : Raft) (f tsc t : ℕ)
    → t ≢ r.current_term
    → All P (votes_in t r.sent)
    → All P (votes_in t (voted r f tsc).sent)
voted-All_other P r f tsc t ne h = subst (All P) (sym (voted_other r f tsc t ne)) h

-- A vote that is granted.
pub grant-IsFaithful :
    (r : Raft) (f tsc : ℕ)
    → f ≢ no_vote
    → f ≢ r.node_id
    → ((r.voted_for == no_vote) || (r.voted_for == f)) ≡ true
    → IsFaithful r
    → IsFaithful (voted r f tsc)
grant-IsFaithful r f tsc nf nn h v = record {
  future = λ t l. voted_other r f tsc t (omega (arith, l)) ∙ v.future t l;
  current = voted-All (λ d. d ≡ f) r f tsc refl agreed;
  standing = λ e. absurd (ground (arith, (v.standing e).1, v.named, nf, nn, h));
  unique = λ t. elim (Bool-cases (t == r.current_term)) [
    | inl s ↦
        let s' : t ≡ r.current_term = ground arith in
        subst (λ k. (d : ℕ) × All (λ x. x ≡ d) (votes_in k (voted r f tsc).sent)) (sym s')
          (f, voted-All (λ d. d ≡ f) r f tsc refl agreed)
    | inr n ↦
        let (d, k) = v.unique t in (d, voted-All_other (λ x. x ≡ d) r f tsc t (ground arith) k)
  ];
  real = λ t. elim (Bool-cases (t == r.current_term)) [
    | inl s ↦
        let s' : t ≡ r.current_term = ground arith in
        subst (λ k. All (λ x. x ≢ no_vote) (votes_in k (voted r f tsc).sent)) (sym s')
          (voted-All (λ x. x ≢ no_vote) r f tsc nf (v.real r.current_term))
    | inr n ↦ voted-All_other (λ x. x ≢ no_vote) r f tsc t (ground arith) (v.real t)
  ];
  named = v.named;
}
  where
    agreed : All (λ d. d ≡ f) (votes_in r.current_term r.sent)
    agreed = elim (Bool-cases (r.voted_for == no_vote)) [
      | inl e ↦
          let e' : r.voted_for ≡ no_vote = ground arith in
          All-clash (λ d. d ≡ f) (votes_in r.current_term r.sent)
            (subst (λ w. All (λ d. d ≡ w) (votes_in r.current_term r.sent)) e' v.current)
            (v.real r.current_term)
      | inr n ↦
          let e' : r.voted_for ≡ f = ground arith in
          subst (λ w. All (λ d. d ≡ w) (votes_in r.current_term r.sent)) e' v.current
    ]
