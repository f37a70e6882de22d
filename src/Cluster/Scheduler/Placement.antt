-- ===== src/Cluster/Scheduler/Placement.antt =====
-- What `scheduler_schedule` of src/cluster/scheduler.c picks: the best of the nodes that fit.
use purevisor.Base.{
  ℕ, ◌+◌, ◌≤◌, ◌≡◌, ◌≢◌, ◌⊎◌, inl, inr, refl, sym, subst, ap, ◌∙◌, Bool, true, false, List, [], ◌∷◌,
  Option, none, some, arith, All, All-map, Member, if◌then◌else◌, add64, ==-ne,
}
use purevisor.Cluster.World.{World}
use purevisor.Cluster.Scheduler.{
  Scheduler, SchedRequest, SchedResult, NodeScore, is_fit, node_is_feasible, scheduler_score_node,
  score_nodes, improves, best_loop, decide_placement, scheduler_schedule,
}

-- The entry beats what was best before.
abbrev Above : Option (ℕ × NodeScore) → NodeScore → Type 0
Above none b = Unit {0}
Above (some (j, c)) b = c.total_score ≤ b.total_score

abbrev Beaten : NodeScore → NodeScore → Type 0
Beaten b x = x.feasible ≡ true → x.total_score ≤ b.total_score

-- The entry is feasible and comes from a list of which `P` holds, or was best before.
abbrev Sound : (NodeScore → Type 0) → Option (ℕ × NodeScore) → Type 0
Sound P none = Unit {0}
Sound P (some (j, c)) = P c × (c.feasible ≡ true)

step-Sound :
    (P : NodeScore → Type 0) (i : ℕ) (x : NodeScore) (best : Option (ℕ × NodeScore)) (t : Bool)
    → improves x best ≡ t
    → P x
    → Sound P best
    → Sound P (if t then some (i, x) else best)
step-Sound P i x none true e p s = (p, e)
step-Sound P i x (some (j, b)) true e p s = (p, ground arith)
step-Sound P i x best false e p s = s

best_loop-Sound :
    (P : NodeScore → Type 0) (i : ℕ) (xs : List NodeScore) (best : Option (ℕ × NodeScore))
    → All P xs
    → Sound P best
    → Sound P (best_loop i xs best)
unfolding best_loop
best_loop-Sound P i [] best h s = s
best_loop-Sound P i (x ∷ xs) best h s =
    best_loop-Sound P (i + 1) xs (if improves x best then some (i, x) else best) h.1
      (step-Sound P i x best (improves x best) refl h.0 s)

-- How the result stands to what was best before and to the entries of the loop.
abbrev Wins : Option (ℕ × NodeScore) → List NodeScore → Option (ℕ × NodeScore) → Type 0
Wins best xs none = (best ≡ none) × All (λ x. x.feasible ≡ false) xs
Wins best xs (some (k, b)) = Above best b × All (Beaten b) xs

step-Wins :
    (i : ℕ) (x : NodeScore) (xs : List NodeScore) (best r : Option (ℕ × NodeScore)) (t : Bool)
    → improves x best ≡ t
    → Wins (if t then some (i, x) else best) xs r
    → Wins best (x ∷ xs) r
step-Wins i x xs none none true e w = cc
step-Wins i x xs none none false e w = (refl, (e, w.1))
step-Wins i x xs (some (j, c)) none true e w = cc
step-Wins i x xs (some (j, c)) none false e w = cc
step-Wins i x xs none (some (k, b)) true e w = (tt, ((λ f. w.0), w.1))
step-Wins i x xs none (some (k, b)) false e w = (tt, ((λ f. cc), w.1))
step-Wins i x xs (some (j, c)) (some (k, b)) true e w = (ground arith, ((λ f. w.0), w.1))
step-Wins i x xs (some (j, c)) (some (k, b)) false e w = (w.0, ((λ f. ground arith), w.1))

best_loop-Wins :
    (i : ℕ) (xs : List NodeScore) (best : Option (ℕ × NodeScore))
    → Wins best xs (best_loop i xs best)
unfolding best_loop
best_loop-Wins i [] none = (refl, tt)
best_loop-Wins i [] (some (j, c)) = (omega arith, tt)
best_loop-Wins i (x ∷ xs) best =
    step-Wins i x xs best _ (improves x best) refl
      (best_loop-Wins (i + 1) xs (if improves x best then some (i, x) else best))

module _ (s : Scheduler) (w : World) (req : SchedRequest) where
  -- the entry of a node
  abbrev score : ℕ → NodeScore
  score a = scheduler_score_node s w a req

  -- whether a node fits the request
  abbrev pub fits_at : ℕ → Bool
  fits_at a = is_fit (node_is_feasible s (w.node a) req)

  score-feasible : (a : ℕ) → (score a).feasible ≡ fits_at a
  unfolding scheduler_score_node
  score-feasible a = ground arith

  score-node : (a : ℕ) → (score a).node ≡ a
  unfolding scheduler_score_node
  score-node a = ground arith

  -- An entry of a member of the list.
  abbrev Entry : List ℕ → NodeScore → Type 0
  Entry ns x = Member x.node ns × (x ≡ score x.node)

  score_nodes-Entry :
      (ns xs : List ℕ)
      → ((a : ℕ) → Member a xs → Member a ns)
      → All (Entry ns) (score_nodes s w req xs)
  unfolding score_nodes
  score_nodes-Entry ns [] h = tt
  score_nodes-Entry ns (x ∷ xs) h = (
    (subst (λ k. Member k ns) (sym (score-node x)) (h x (inl refl)), ap score (sym (score-node x))),
    score_nodes-Entry ns xs (λ a m. h a (inr m)),
  )

  score_nodes-All :
      (Q : NodeScore → Type 0) (xs : List ℕ)
      → All Q (score_nodes s w req xs)
      → All (λ a. Q (score a)) xs
  unfolding score_nodes
  score_nodes-All Q [] h = tt
  score_nodes-All Q (x ∷ xs) h = (h.0, score_nodes-All Q xs h.1)

  -- The result names a member that fits, and no member that fits scores higher.
  pub record Placed (r : SchedResult) : Type 0 where
    pub member : Member r.selected_node w.cluster.nodes
    pub fit : fits_at r.selected_node ≡ true
    pub scored : r.score ≡ (scheduler_score_node s w r.selected_node req).total_score
    pub highest :
        All
          (λ a. fits_at a ≡ true → (scheduler_score_node s w a req).total_score ≤ r.score)
          w.cluster.nodes

  -- What a decision on the scores says.
  abbrev pub Decides : Scheduler × SchedResult → Type 0
  Decides (s', r) =
      ((r.success ≡ true) × Placed r × (s'.total_placements ≡ add64 s.total_placements 1))
      ⊎ ((r.success ≡ false)
          × All (λ a. fits_at a ≡ false) w.cluster.nodes
          × (s'.failed_placements ≡ add64 s.failed_placements 1))

  decide-Decides :
      (best : Option (ℕ × NodeScore))
      → Sound (Entry w.cluster.nodes) best
      → Wins none (score_nodes s w req w.cluster.nodes) best
      → Decides (decide_placement s (score_nodes s w req w.cluster.nodes) best)
  unfolding decide_placement
  decide-Decides none sound wins = inr (
    refl,
    All-map (λ a h. sym (score-feasible a) ∙ h) w.cluster.nodes
        (score_nodes-All (λ x. x.feasible ≡ false) w.cluster.nodes wins.1),
    refl,
  )
  decide-Decides (some (k, b)) sound wins = inl (
    refl,
    record {
      member = sound.0.0;
      fit =
          sym (score-feasible b.node)
          ∙ ap (λ (x : NodeScore). x.feasible) (sym (sound.0.1))
          ∙ sound.1;
      scored = ap (λ (x : NodeScore). x.total_score) (sound.0.1);
      highest =
          All-map (λ a h f. h (score-feasible a ∙ f)) w.cluster.nodes
            (score_nodes-All (Beaten b) w.cluster.nodes wins.1);
    },
    refl,
  )

  -- In a cluster with nodes, and with memory for the scores, a request is placed exactly when some
  -- member fits: then on a member that fits, with a score that no other fitting member exceeds,
  -- and the placement is counted; else the failure is.
  pub schedule-Decides : w.cluster.node_count ≢ 0 → Decides (scheduler_schedule true s w req)
  unfolding scheduler_schedule
  schedule-Decides nz = rw (==-ne _ _ nz) (
      decide-Decides (best_loop 0 (score_nodes s w req w.cluster.nodes) none)
        (best_loop-Sound (Entry w.cluster.nodes) 0 (score_nodes s w req w.cluster.nodes) none
          (score_nodes-Entry w.cluster.nodes w.cluster.nodes (λ a m. m)) tt)
        (best_loop-Wins 0 (score_nodes s w req w.cluster.nodes) none))
