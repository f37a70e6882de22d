-- ===== src/Cluster/Scheduler/Evacuation.antt =====
-- Evacuating a node: `scheduler_evacuate_node` of src/cluster/scheduler.c.
use purevisor.Base.{
  str_eq_refl, ℕ, suc, zero, ◌≤◌, ◌≡◌, ◌≢◌, ◌==◌, ◌∙◌, refl, sym, ap, inl, inr, Bool, true, false,
  List, [], ◌∷◌, arith, length, take, Bool-cases, ==-refl, All, All-Member, ◌<◌, ◌⊎◌,
}
use purevisor.Cluster.Node.{has_string}
use purevisor.Cluster.World.{World, Vm}
use purevisor.Cluster.Vm.{is_active, virt_vm_migrate}
use purevisor.Cluster.Scheduler.{
  Scheduler, SchedResult, SchedRequest, node_is_feasible, scheduler_schedule, evacuation_request,
  evacuate_to, evacuate_vm, evacuate_loop, scheduler_evacuate_node,
}
use purevisor.Cluster.Scheduler.Placement.{fits_at, Decides, schedule-Decides}

migrate_other : (w : World) (a target b : ℕ) → b ≢ a → (virt_vm_migrate w a target).1.vm b ≡ w.vm b
unfolding virt_vm_migrate
migrate_other w a target b ne = ground arith

evacuate_to_other :
    (p : Scheduler × SchedResult) (w : World) (a b : ℕ)
    → b ≢ a
    → (evacuate_to p w a).1.vm b ≡ w.vm b
evacuate_to_other (s, r) w a b ne = ground (arith, migrate_other w a r.selected_node b)

evacuate_vm_other :
    (allocated : Bool) (s : Scheduler) (w : World) (a node b : ℕ)
    → (w.vm b).host_node ≢ node
    → (evacuate_vm allocated s w a node).1.vm b ≡ w.vm b
unfolding evacuate_vm
evacuate_vm_other allocated s w a node b off = elim (Bool-cases ((w.vm a).host_node == node)) [
  | inr e ↦ rw e
  | inl e ↦ rw e (
      evacuate_to_other (scheduler_schedule allocated s w (evacuation_request w a node)) w a b
        (λ (same : b ≡ a). off (ap (λ k. (w.vm k).host_node) same ∙ ground arith)))
]

evacuate_loop_other :
    (allocated : ℕ → Bool) (s : Scheduler) (w : World) (xs : List ℕ) (node b : ℕ)
    → (w.vm b).host_node ≢ node
    → (evacuate_loop allocated s w xs node).1.vm b ≡ w.vm b
unfolding evacuate_loop
evacuate_loop_other allocated s w [] node b off = refl
evacuate_loop_other allocated s w (a ∷ as') node b off =
    let same = evacuate_vm_other (allocated a) s w a node b off in
    let next = evacuate_vm (allocated a) s w a node in
    evacuate_loop_other allocated next.0 next.1 as' node b
      (λ e. off (ap (λ (v : Vm). v.host_node) (sym same) ∙ e))
    ∙ same

-- An evacuation touches no machine that is hosted on another node.
pub evacuate_spares :
    (allocated : ℕ → Bool) (s : Scheduler) (w : World) (node b : ℕ)
    → (w.vm b).host_node ≢ node
    → (scheduler_evacuate_node allocated s w node).1.1.vm b ≡ w.vm b
unfolding scheduler_evacuate_node
evacuate_spares allocated s w node b off =
    ground (arith, evacuate_loop_other allocated s w w.mgr.vms node b off)

take_all : (n : ℕ) (xs : List ℕ) → length xs ≤ n → take n xs ≡ xs
take_all n [] h = take_nil n
  where
    take_nil : (k : ℕ) → take {A = ℕ} k [] ≡ []
    take_nil zero = refl
    take_nil (suc k) = refl
take_all zero (x ∷ xs) h = absurd (omega arith)
take_all (suc n) (x ∷ xs) h = ap (λ l. x ∷ l) (take_all n xs (omega arith))

-- The request of an evacuation never fits the node that is emptied.
request_forbids :
    (s : Scheduler) (w : World) (a node : ℕ)
    → length (w.node node).name ≤ 63
    → fits_at s w (evacuation_request w a node) node ≡ false
unfolding node_is_feasible
request_forbids s w a node short = ground (arith, named)
  where
    named : has_string (take 63 (w.node node).name ∷ []) (w.node node).name ≡ true
    named = rw (take_all 63 (w.node node).name short, str_eq_refl (w.node node).name)

migrate-host :
    (w : World) (a target : ℕ)
    → a ≢ 0
    → target ≢ 0
    → is_active (w.vm a).state ≡ true
    → ((virt_vm_migrate w a target).1.vm a).host_node ≡ target
unfolding virt_vm_migrate
migrate-host w a target na nt on = ground arith

-- With memory for the scores, an active machine on the node that is emptied leaves it in its
-- round, unless no member of the cluster fits the machine's request. The cluster has members, none
-- of them NULL, and the node's name fits its field.
pub evacuate_vm_moves :
    (s : Scheduler) (w : World) (a node : ℕ)
    → a ≢ 0
    → (w.vm a).host_node ≡ node
    → is_active (w.vm a).state ≡ true
    → length (w.node node).name ≤ 63
    → w.cluster.node_count ≢ 0
    → All (λ n. 0 < n) w.cluster.nodes
    → (((evacuate_vm true s w a node).1.vm a).host_node ≢ node)
      ⊎ All (λ n. fits_at s w (evacuation_request w a node) n ≡ false) w.cluster.nodes
unfolding evacuate_vm
evacuate_vm_moves s w a node na here on short nz pos =
    rw (here, ==-refl node)
      (decided (scheduler_schedule true s w req) (schedule-Decides s w req nz))
  where
    req : SchedRequest
    req = evacuation_request w a node

    decided :
        (d : Scheduler × SchedResult)
        → Decides s w req d
        → (((evacuate_to d w a).1.vm a).host_node ≢ node)
          ⊎ All (λ n. fits_at s w req n ≡ false) w.cluster.nodes
    decided (s', r) (inr (fail, none_fit, _)) = inr none_fit
    decided (s', r) (inl (done, placed, _)) =
        let nt : r.selected_node ≢ 0 = λ z.
          absurd (omega (arith, All-Member _ w.cluster.nodes pos r.selected_node placed.member)) in
        inl (
          rw done (
            rw (migrate-host w a r.selected_node na nt on) (λ e.
              let forbidden = request_forbids s w a node short in
              let fit = placed.fit in cc (ap (fits_at s w req) e))))
