-- ===== src/Cluster/Scheduler/Capacity.antt =====
-- The capacity tests and the scores of src/cluster/scheduler.c: where they are right, and where the
-- unsigned subtraction wraps.
use purevisor.Base.{
  ℕ, zero, suc, ap₂, sym, ◌==◌, add64, add32, ◌+◌, ◌*◌, ◌/◌, ◌^◌, ◌≤◌, ◌<◌, ◌≡◌, ◌≢◌, ap, ◌∙◌, ◌∷◌,
  [], Option, none, some, if◌then◌else◌, map, refl, Bool, true, false, arith, List, mul32, mul64,
  sub64,
}
use native.Mathlib.Nat.{div-le_of_le-mul}
use purevisor.Cluster.Node.{Node, is_online, has_string}
use purevisor.Cluster.World.{World}
use purevisor.Cluster.Scheduler.{
  Scheduler, SchedRequest, Policy, NodeScore, fits, insufficient_cpu, node_is_feasible,
  cpu_capacity, has_tags, scheduler_score_node, cpu_score_of, memory_score_of, storage_score_of,
  network_score_of, weighted, by_policy, scheduler_schedule, score_nodes, best_loop,
  decide_placement, improves, alternatives_loop, SchedResult, no_result,
}

-- A node that passes every test is online, healthy, not forbidden, and has the tags asked for.
pub record IsSuitable (n : Node) (req : SchedRequest) : Type 0 where
  pub online : is_online n.state ≡ true
  pub healthy : 50 ≤ n.health.score
  pub permitted : has_string req.forbidden_nodes n.name ≡ false
  pub tagged : has_tags n req.required_tags ≡ true

pub fits-IsSuitable :
    (s : Scheduler) (n : Node) (req : SchedRequest)
    → node_is_feasible s n req ≡ fits
    → IsSuitable n req
unfolding node_is_feasible
fits-IsSuitable s n req h = ground arith

-- A node that is not booked beyond its capacity, where that fits 64 bits, and that passes every
-- test, stays with the request within its capacity of threads.
pub fits_within_capacity :
    (s : Scheduler) (n : Node) (req : SchedRequest)
    → cpu_capacity s n < 2 ^ 64
    → n.vm_count * 2 < 2 ^ 32
    → n.vm_count * 2 ≤ cpu_capacity s n
    → node_is_feasible s n req ≡ fits
    → n.vm_count * 2 + req.vcpus ≤ cpu_capacity s n
unfolding node_is_feasible
fits_within_capacity s n req c v b h = ground arith

-- A node with more machines than its capacity allows never fails the CPU test for a 32-bit
-- request: the subtraction wraps.
pub full_node_passes_cpu :
    (s : Scheduler) (n : Node) (req : SchedRequest)
    → cpu_capacity s n < n.vm_count * 2
    → n.vm_count * 2 < 2 ^ 32
    → req.vcpus < 2 ^ 32
    → node_is_feasible s n req ≢ insufficient_cpu
unfolding node_is_feasible
full_node_passes_cpu s n req c v r h = ground arith

percent : ℕ → ℕ → ℕ
percent a b = mul64 a 100 / b

percent-le : (a b : ℕ) → a ≤ b → b * 100 < 2 ^ 64 → percent a b ≤ 100
unfolding percent
percent-le a b h f = div-le_of_le-mul b (omega arith)

cpu_score-le :
    (n : Node)
    → n.vm_count * 2 ≤ n.resources.total_threads
    → n.resources.total_threads * 100 < 2 ^ 32
    → cpu_score_of n ≤ 100
unfolding percent
cpu_score-le n b f = ground (
  arith,
  percent-le (sub64 n.resources.total_threads (mul32 n.vm_count 2)) n.resources.total_threads
      (omega arith) (omega arith),
)

memory_score-le :
    (n : Node)
    → n.resources.free_bytes ≤ n.resources.total_bytes
    → n.resources.total_bytes * 100 < 2 ^ 64
    → memory_score_of n ≤ 100
unfolding percent
memory_score-le n b f =
    ground (arith, percent-le n.resources.free_bytes n.resources.total_bytes b f)

storage_score-le :
    (n : Node)
    → n.resources.storage_free ≤ n.resources.storage_total
    → n.resources.storage_total * 100 < 2 ^ 64
    → storage_score_of n ≤ 100
unfolding percent
storage_score-le n b f =
    ground (arith, percent-le n.resources.storage_free n.resources.storage_total b f)

weights-le :
    (c m s n : ℕ)
    → c ≤ 100
    → m ≤ 100
    → s ≤ 100
    → n ≤ 100
    → add32 (add32 (add32 (mul32 c 40) (mul32 m 40)) (mul32 s 10)) (mul32 n 10) / 100 ≤ 100
weights-le c m s n hc hm hs hn = omega arith

-- The score of a node that uses no more threads, memory and storage than it has, with totals whose
-- hundredfold fits their words, is a percentage, whatever the policy.
pub weighted-le-100 :
    (n : Node) (p : Policy)
    → n.vm_count * 2 ≤ n.resources.total_threads
    → n.resources.free_bytes ≤ n.resources.total_bytes
    → n.resources.storage_free ≤ n.resources.storage_total
    → n.resources.total_threads * 100 < 2 ^ 32
    → n.resources.total_bytes * 100 < 2 ^ 64
    → n.resources.storage_total * 100 < 2 ^ 64
    → by_policy p (weighted n) ≤ 100
weighted-le-100 n p a b c d e f = capped (weighted n) (
    weights-le (cpu_score_of n) (memory_score_of n) (storage_score_of n) (network_score_of n)
      (cpu_score-le n a d) (memory_score-le n b e) (storage_score-le n c f) (ground arith))
  where
    capped : (t : ℕ) → t ≤ 100 → by_policy p t ≤ 100
    capped t h = ground arith

-- An entry without the score that nothing reads.
abbrev strip : NodeScore → NodeScore
strip x = record x { affinity_score = 0 }

abbrev strip_best : Option (ℕ × NodeScore) → Option (ℕ × NodeScore)
strip_best none = none
strip_best (some (i, x)) = some (i, strip x)

choose-strip :
    (t : Bool) (i : ℕ) (x : NodeScore) (best : Option (ℕ × NodeScore))
    → (if t then some (i, strip x) else strip_best best)
      ≡ strip_best (if t then some (i, x) else best)
choose-strip true i x best = refl
choose-strip false i x best = refl

best_loop-strip :
    (i : ℕ) (xs : List NodeScore) (best : Option (ℕ × NodeScore))
    → best_loop i (map strip xs) (strip_best best) ≡ strip_best (best_loop i xs best)
unfolding best_loop
best_loop-strip i [] best = refl
best_loop-strip i (x ∷ xs) none =
    ap (best_loop (i + 1) (map strip xs)) (choose-strip x.feasible i x none)
    ∙ best_loop-strip (i + 1) xs (if improves x none then some (i, x) else none)
best_loop-strip i (x ∷ xs) (some (j, b)) =
    ap (best_loop (i + 1) (map strip xs))
      (choose-strip (improves x (some (j, b))) i x (some (j, b)))
    ∙ best_loop-strip (i + 1) xs (if improves x (some (j, b)) then some (i, x) else some (j, b))

alternatives-strip :
    (best i room : ℕ) (xs : List NodeScore)
    → alternatives_loop best i room (map strip xs) ≡ alternatives_loop best i room xs
unfolding alternatives_loop
alternatives-strip best i room [] = refl
alternatives-strip best i zero (x ∷ xs) = refl
alternatives-strip best i (suc room) (x ∷ xs) =
    ground (
      arith,
      alternatives-strip best (i + 1) room xs,
      alternatives-strip best (i + 1) (suc room) xs,
    )

decide-strip :
    (s : Scheduler) (scores : List NodeScore) (best : Option (ℕ × NodeScore))
    → decide_placement s (map strip scores) (strip_best best) ≡ decide_placement s scores best
unfolding decide_placement
decide-strip s scores none = refl
decide-strip s scores (some (i, b)) = rw (alternatives-strip i 0 3 scores)

module _ (s : Scheduler) (w : World) (req : SchedRequest) (near far : List ℕ) where
  abbrev elsewhere : SchedRequest
  elsewhere = record req { affinity_vm_ids = near; anti_affinity_vm_ids = far }

  score_node-strip :
      (a : ℕ)
      → strip (scheduler_score_node s w a elsewhere) ≡ strip (scheduler_score_node s w a req)
  unfolding scheduler_score_node node_is_feasible
  score_node-strip a = ground arith

  score_nodes-strip :
      (xs : List ℕ) → map strip (score_nodes s w elsewhere xs) ≡ map strip (score_nodes s w req xs)
  unfolding score_nodes
  score_nodes-strip [] = refl
  score_nodes-strip (x ∷ xs) = ap₂ ◌∷◌ (score_node-strip x) (score_nodes-strip xs)

place : Scheduler → List NodeScore → Scheduler × SchedResult
place s scores = decide_placement s scores (best_loop 0 scores none)

place-strip :
    (s : Scheduler) (scores : List NodeScore) → place s (map strip scores) ≡ place s scores
unfolding place
place-strip s scores =
    ap (decide_placement s (map strip scores)) (best_loop-strip 0 scores none)
    ∙ decide-strip s scores (best_loop 0 scores none)

-- Affinity has no say: two requests that differ only in the machines to be near to or far from are
-- placed alike, in whatever world.
pub affinity_ignored :
    (allocated : Bool) (s : Scheduler) (w : World) (req : SchedRequest) (near far : List ℕ)
    → scheduler_schedule allocated s w
        (record req { affinity_vm_ids = near; anti_affinity_vm_ids = far })
      ≡ scheduler_schedule allocated s w req
unfolding scheduler_schedule place
affinity_ignored allocated s w req near far =
    ap
      (λ (d : Scheduler × SchedResult).
        if w.cluster.node_count == 0
        then (record s { failed_placements = add64 s.failed_placements 1 }, no_result)
        else if allocated
        then d
        else (s, no_result))
      (sym (place-strip s (score_nodes s w (elsewhere s w req near far) w.cluster.nodes))
        ∙ ap (place s) (score_nodes-strip s w req near far w.cluster.nodes)
        ∙ place-strip s (score_nodes s w req w.cluster.nodes))
