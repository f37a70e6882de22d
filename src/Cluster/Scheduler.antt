-- ===== src/Cluster/Scheduler.antt =====
-- Placement of machines: src/cluster/scheduler.c, over include/cluster/scheduler.h.
-- The scheduler's cluster and manager are those of the world. Texts for the log and `reason` are
-- left out; why a node is refused is kept as a value.
pub mod Placement
pub mod Evacuation
pub mod Capacity
use purevisor.Base.{
  ℕ, zero, suc, ◌+◌, ◌-◌, ◌*◌, ◌/◌, Bool, true, false, ◌&&◌, ◌||◌, not, List, [], ◌∷◌, ◌++◌, Option,
  none, some, if◌then◌else◌, ltb, leb, ◌==◌, add32, sub32, mul32, u32, add64, sub64, mul64, take,
  find_first,
}
use purevisor.Cluster.Node.{Node, is_online, has_string, node_has_tag}
use purevisor.Cluster.World.{World, Vm}
use purevisor.Cluster.Vm.{virt_vm_find, virt_vm_can_migrate, virt_vm_migrate}

-- SCHED_POLICY_SPREAD and the three others.
pub data Policy : Type 0 where
  spread pack random affinity : Policy

abbrev pub is_pack : Policy → Bool
is_pack pack = true
is_pack _ = false

-- `scheduler_t`, without the pointers to the world's parts.
pub record Scheduler : Type 0 where
  pub default_policy : Policy
  pub enable_overcommit : Bool
  pub cpu_overcommit_ratio : ℕ
  pub memory_overcommit_ratio : ℕ
  pub total_placements : ℕ
  pub failed_placements : ℕ
  pub migrations_triggered : ℕ

-- `sched_request_t`; an array with its count is a list.
pub record SchedRequest : Type 0 where
  pub vm : ℕ
  pub vcpus : ℕ
  pub memory : ℕ
  pub policy : Policy
  pub required_tags : List (List ℕ)
  pub forbidden_nodes : List (List ℕ)
  pub affinity_vm_ids : List ℕ
  pub anti_affinity_vm_ids : List ℕ

-- `node_score_t`.
pub record NodeScore : Type 0 where
  pub node : ℕ
  pub total_score : ℕ
  pub cpu_score : ℕ
  pub memory_score : ℕ
  pub storage_score : ℕ
  pub network_score : ℕ
  pub affinity_score : ℕ
  pub feasible : Bool

-- `sched_result_t`; the alternatives with their scores.
pub record SchedResult : Type 0 where
  pub success : Bool
  pub selected_node : ℕ
  pub score : ℕ
  pub alternatives : List (ℕ × ℕ)

abbrev pub scheduler_init : Scheduler
scheduler_init = record {
  default_policy = spread;
  enable_overcommit = true;
  cpu_overcommit_ratio = 200;
  memory_overcommit_ratio = 150;
  total_placements = 0;
  failed_placements = 0;
  migrations_triggered = 0;
}

-- The answer of `node_is_feasible`, with its reason.
pub data Verdict : Type 0 where
  fits not_online unhealthy forbidden missing_tag insufficient_cpu insufficient_memory : Verdict

abbrev pub is_fit : Verdict → Bool
is_fit fits = true
is_fit _ = false

abbrev pub has_tags : Node → List (List ℕ) → Bool
has_tags n [] = true
has_tags n (t ∷ ts) = if has_string n.tags t then has_tags n ts else false

-- The threads that the node may hand out, in 64 bits, less two for each machine.
abbrev pub cpu_capacity : Scheduler → Node → ℕ
cpu_capacity s n =
    if s.enable_overcommit
    then mul64 n.resources.total_threads s.cpu_overcommit_ratio / 100
    else n.resources.total_threads

abbrev pub available_vcpus : Scheduler → Node → ℕ
available_vcpus s n = sub64 (cpu_capacity s n) (mul32 n.vm_count 2)

abbrev pub available_mem : Scheduler → Node → ℕ
available_mem s n =
    if s.enable_overcommit
    then sub64 (mul64 n.resources.total_bytes s.memory_overcommit_ratio / 100)
        n.resources.used_bytes
    else n.resources.free_bytes

unfoldable pub node_is_feasible : Scheduler → Node → SchedRequest → Verdict
node_is_feasible s n req =
    if not (is_online n.state)
    then not_online
    else if ltb n.health.score 50
    then unhealthy
    else if has_string req.forbidden_nodes n.name
    then forbidden
    else if not (has_tags n req.required_tags)
    then missing_tag
    else if ltb (available_vcpus s n) req.vcpus
    then insufficient_cpu
    else if ltb (available_mem s n) req.memory
    then insufficient_memory
    else fits

abbrev pub no_score : ℕ → NodeScore
no_score a = record {
  node = a;
  total_score = 0;
  cpu_score = 0;
  memory_score = 0;
  storage_score = 0;
  network_score = 0;
  affinity_score = 0;
  feasible = false;
}

-- Both loops over machine identifiers.
abbrev pub hosted_on : World → ℕ → ℕ → Bool
hosted_on w a id = not (virt_vm_find w id == 0) && ((w.vm (virt_vm_find w id)).host_node == a)

abbrev pub affinity_loop : World → ℕ → List ℕ → ℕ → ℕ
affinity_loop w a [] score = score
affinity_loop w a (id ∷ ids) score =
    affinity_loop w a ids (if hosted_on w a id then add32 score 25 else score)

abbrev pub anti_affinity_loop : World → ℕ → List ℕ → ℕ → ℕ
anti_affinity_loop w a [] score = score
anti_affinity_loop w a (id ∷ ids) score =
    anti_affinity_loop w a ids
      (if hosted_on w a id then if leb 50 score then sub32 score 50 else 0 else score)

abbrev pub cap_100 : ℕ → ℕ
cap_100 n = if ltb 100 n then 100 else n

abbrev pub cpu_score_of : Node → ℕ
cpu_score_of n =
    if ltb 0 n.resources.total_threads
    then u32 (
        mul64 (sub64 n.resources.total_threads (mul32 n.vm_count 2)) 100
        / n.resources.total_threads)
    else 0

abbrev pub memory_score_of : Node → ℕ
memory_score_of n =
    if ltb 0 n.resources.total_bytes
    then u32 (mul64 n.resources.free_bytes 100 / n.resources.total_bytes)
    else 0

abbrev pub storage_score_of : Node → ℕ
storage_score_of n =
    if ltb 0 n.resources.storage_total
    then u32 (mul64 n.resources.storage_free 100 / n.resources.storage_total)
    else 100

abbrev pub network_score_of : Node → ℕ
network_score_of n = if n.health.network_healthy then 100 else 0

-- The weighted sum, with WEIGHT_CPU and the others.
abbrev pub weighted : Node → ℕ
weighted n =
    add32
      (add32 (add32 (mul32 (cpu_score_of n) 40) (mul32 (memory_score_of n) 40))
        (mul32 (storage_score_of n) 10))
      (mul32 (network_score_of n) 10)
    / 100

abbrev pub by_policy : Policy → ℕ → ℕ
by_policy p total = if is_pack p then sub32 100 total else total

-- `a` is the node's address.
pub scheduler_score_node : Scheduler → World → ℕ → SchedRequest → NodeScore
scheduler_score_node s w a req =
    if is_fit (node_is_feasible s (w.node a) req)
    then record {
      node = a;
      total_score = by_policy req.policy (weighted (w.node a));
      cpu_score = cpu_score_of (w.node a);
      memory_score = memory_score_of (w.node a);
      storage_score = storage_score_of (w.node a);
      network_score = network_score_of (w.node a);
      affinity_score = cap_100 (
          anti_affinity_loop w a req.anti_affinity_vm_ids
            (affinity_loop w a req.affinity_vm_ids 50));
      feasible = true;
    }
    else no_score a

pub score_nodes : Scheduler → World → SchedRequest → List ℕ → List NodeScore
score_nodes s w req [] = []
score_nodes s w req (a ∷ as') = scheduler_score_node s w a req ∷ score_nodes s w req as'

-- The first feasible entry with the highest score: its index, counted from `i`, and the entry.
abbrev pub improves : NodeScore → Option (ℕ × NodeScore) → Bool
improves x none = x.feasible
improves x (some (j, b)) = x.feasible && ltb b.total_score x.total_score

pub best_loop : ℕ → List NodeScore → Option (ℕ × NodeScore) → Option (ℕ × NodeScore)
best_loop i [] best = best
best_loop i (x ∷ xs) best = best_loop (i + 1) xs (if improves x best then some (i, x) else best)

-- The other feasible entries, in order; `room` is how many more there is space for.
pub alternatives_loop : ℕ → ℕ → ℕ → List NodeScore → List (ℕ × ℕ)
alternatives_loop best i room [] = []
alternatives_loop best i zero (x ∷ xs) = []
alternatives_loop best i (suc room) (x ∷ xs) =
    if x.feasible && not (i == best)
    then (x.node, x.total_score) ∷ alternatives_loop best (i + 1) room xs
    else alternatives_loop best (i + 1) (suc room) xs

abbrev pub no_result : SchedResult
no_result = record { success = false; selected_node = 0; score = 0; alternatives = [] }

pub decide_placement : Scheduler → List NodeScore → Option (ℕ × NodeScore) → Scheduler × SchedResult
decide_placement s scores none =
    (record s { failed_placements = add64 s.failed_placements 1 }, no_result)
decide_placement s scores (some (i, b)) = (
  record s { total_placements = add64 s.total_placements 1 },
  record {
    success = true;
    selected_node = b.node;
    score = b.total_score;
    alternatives = alternatives_loop i 0 3 scores;
  },
)

-- `allocated` says whether `kmalloc` found memory for the scores. It returns 0 exactly on success.
pub scheduler_schedule : Bool → Scheduler → World → SchedRequest → Scheduler × SchedResult
unfolding decide_placement
scheduler_schedule allocated s w req =
    let scores = score_nodes s w req w.cluster.nodes in
    if w.cluster.node_count == 0
    then (record s { failed_placements = add64 s.failed_placements 1 }, no_result)
    else if allocated
    then decide_placement s scores (best_loop 0 scores none)
    else (s, no_result)

-- The percentages of CPU and memory in use, 0 for no node.
abbrev pub scheduler_get_node_utilization : World → ℕ → ℕ × ℕ
scheduler_get_node_utilization w a = if a == 0 then (0, 0) else (
  cap_100 (
      if ltb 0 r.total_threads
      then u32 (mul64 (mul32 (w.node a).vm_count 2) 100 / r.total_threads)
      else 0),
  if ltb 0 r.total_bytes then u32 (mul64 r.used_bytes 100 / r.total_bytes) else 0,
)
  where
    open w.node a use {resources as r}

-- The fullest and the emptiest online node so far, with their counts.
pub record Extremes : Type 0 where
  pub overloaded : ℕ
  pub underloaded : ℕ
  pub max_vms : ℕ
  pub min_vms : ℕ
  pub online_nodes : ℕ

abbrev pub widen : World → ℕ → Extremes → Extremes
widen w a e =
    if is_online (w.node a).state
    then record {
      overloaded = if ltb e.max_vms (w.node a).vm_count then a else e.overloaded;
      underloaded = if ltb (w.node a).vm_count e.min_vms then a else e.underloaded;
      max_vms = if ltb e.max_vms (w.node a).vm_count then (w.node a).vm_count else e.max_vms;
      min_vms = if ltb (w.node a).vm_count e.min_vms then (w.node a).vm_count else e.min_vms;
      online_nodes = add32 e.online_nodes 1;
    }
    else e

abbrev pub extremes_loop : World → List ℕ → Extremes → Extremes
extremes_loop w [] e = e
extremes_loop w (a ∷ as') e = extremes_loop w as' (widen w a e)

abbrev pub no_extremes : Extremes
no_extremes = record {
  overloaded = 0;
  underloaded = 0;
  max_vms = 0;
  min_vms = 0xFFFFFFFF;
  online_nodes = 0;
}

-- The migration of the first machine of the list that runs on the overloaded node.
abbrev pub migrate_one : Scheduler → World → ℕ → ℕ → Scheduler × World
migrate_one s w from to =
    let vm = find_first (λ a. ((w.vm a).host_node == from) && virt_vm_can_migrate w a) w.mgr.vms in
    if vm == 0 then (s, w) else (
      record s { migrations_triggered = add64 s.migrations_triggered 1 },
      (virt_vm_migrate w vm to).1,
    )

abbrev pub scheduler_rebalance : Scheduler → World → Scheduler × World
scheduler_rebalance s w =
    let e = extremes_loop w w.cluster.nodes no_extremes in
    if e.online_nodes == 0
    then (s, w)
    else if (not (e.overloaded == 0) && not (e.underloaded == 0))
        && ltb (add32 e.min_vms 2) e.max_vms
    then migrate_one s w e.overloaded e.underloaded
    else (s, w)

-- The request that an evacuation makes for one machine.
abbrev pub evacuation_request : World → ℕ → ℕ → SchedRequest
evacuation_request w a node = record {
  vm = a;
  vcpus = (w.vm a).config.vcpus;
  memory = (w.vm a).config.memory;
  policy = spread;
  required_tags = [];
  forbidden_nodes = take 63 (w.node node).name ∷ [];
  affinity_vm_ids = [];
  anti_affinity_vm_ids = [];
}

abbrev pub evacuate_to : Scheduler × SchedResult → World → ℕ → Scheduler × World
evacuate_to (s, r) w a =
    if r.success
    then (
      record s { migrations_triggered = add64 s.migrations_triggered 1 },
      (virt_vm_migrate w a r.selected_node).1,
    )
    else (s, w)

-- One machine of the list; `allocated` answers the allocation of this round.
pub evacuate_vm : Bool → Scheduler → World → ℕ → ℕ → Scheduler × World
evacuate_vm allocated s w a node =
    if (w.vm a).host_node == node
    then evacuate_to (scheduler_schedule allocated s w (evacuation_request w a node)) w a
    else (s, w)

pub evacuate_loop : (ℕ → Bool) → Scheduler → World → List ℕ → ℕ → Scheduler × World
evacuate_loop allocated s w [] node = (s, w)
evacuate_loop allocated s w (a ∷ as') node =
    let (s', w') = evacuate_vm (allocated a) s w a node in evacuate_loop allocated s' w' as' node

-- `false` is the return value -1.
pub scheduler_evacuate_node : (ℕ → Bool) → Scheduler → World → ℕ → Bool × (Scheduler × World)
scheduler_evacuate_node allocated s w node =
    if node == 0 then (false, (s, w)) else (true, evacuate_loop allocated s w w.mgr.vms node)
