-- ===== src/Cluster/Vm/Lifecycle.antt =====
-- Machines and the manager's counts stay in step: an invariant of src/cluster/vm.c that every
-- operation keeps.
use purevisor.Base.{
  ℕ, ◌+◌, ◌^◌, ◌<◌, ◌≡◌, ◌≢◌, ◌==◌, inl, inr, refl, ap, ◌∙◌, Bool, true, false, List, arith, length,
  tally, tally-ext, tally-update, tally-unlink, All, sub32, All-map, All-zip, All-of, All-write,
  All-linked, Distinct, Bool-cases, if◌then◌else◌, update, linked, unlink, unlink-All,
  unlink-Distinct, length-unlink, tally-le,
}
use purevisor.Cluster.World.{
  World, Vm, VmState, VmConfig, Manager, created, running, paused, stopped,
}
use purevisor.Cluster.Vm.{
  vm_manager_init, new_vm, is_active, virt_vm_create, virt_vm_start, virt_vm_stop,
  virt_vm_force_stop, virt_vm_pause, virt_vm_resume, virt_vm_restart, virt_vm_destroy,
  virt_vm_migrate, virt_vm_update_stats,
}

-- A state in which an operation leaves a machine.
abbrev pub is_settled : VmState → Bool
is_settled created = true
is_settled running = true
is_settled paused = true
is_settled stopped = true
is_settled _ = false

abbrev pub active_at : (ℕ → Vm) → ℕ → Bool
active_at vm a = is_active (vm a).state

pub record IsSettled (vm : ℕ → Vm) (m : Manager) : Type 0 where
  pub counted : m.vm_count ≡ length m.vms
  pub active : m.running_count ≡ tally (active_at vm) m.vms
  pub settled : All (λ a. is_settled (vm a).state ≡ true) m.vms
  pub ids : All (λ a. (vm a).id < m.next_vm_id) m.vms
  pub distinct : Distinct m.vms
  pub room : length m.vms < m.next_vm_id
  pub ids_fit : m.next_vm_id < 2 ^ 32

abbrev one_if : Bool → ℕ
one_if b = if b then 1 else 0

-- Writing one machine moves the count of active ones by that machine.
tally-write :
    (vm vm' : ℕ → Vm) (a : ℕ) (xs : List ℕ)
    → Distinct xs
    → linked a xs ≡ true
    → ((x : ℕ) → x ≢ a → vm' x ≡ vm x)
    → tally (active_at vm') xs + one_if (active_at vm a)
      ≡ tally (active_at vm) xs + one_if (active_at vm' a)
tally-write vm vm' a xs d l same = ground (
  arith,
  tally-update (active_at vm) a (active_at vm' a) xs d l,
  tally-ext _ _ xs (All-of pointwise xs),
)
  where
    pointwise : (x : ℕ) → active_at vm' x ≡ update (active_at vm) a (active_at vm' a) x
    pointwise x = elim (Bool-cases (x == a)) [
      | inl e ↦ let e' : x ≡ a = ground arith in rw e (ap (active_at vm') e')
      | inr e ↦ rw e (ap (λ (v : Vm). is_active v.state) (same x (ground arith)))
    ]

-- An operation that writes one machine, and counts what that does to the number of active ones.
write-IsSettled :
    (vm vm' : ℕ → Vm) (m m' : Manager) (a : ℕ)
    → IsSettled vm m
    → linked a m.vms ≡ true
    → ((x : ℕ) → x ≢ a → vm' x ≡ vm x)
    → is_settled (vm' a).state ≡ true
    → (vm' a).id ≡ (vm a).id
    → m'.vms ≡ m.vms
    → m'.vm_count ≡ m.vm_count
    → m'.next_vm_id ≡ m.next_vm_id
    → (m.running_count + 1 < 2 ^ 32
        → (active_at vm a ≡ true → 0 < m.running_count)
        → m'.running_count + one_if (active_at vm a) ≡ m.running_count + one_if (active_at vm' a))
    → IsSettled vm' m'
write-IsSettled vm vm' m m' a v l same ok id vms count next run = record {
  counted = rw vms (count ∙ v.counted);
  active = rw vms (ground (arith, moved, run small busy));
  settled = rw vms (
      All-write _ _ a ok (λ x ne h. ap (λ (n : Vm). is_settled n.state) (same x ne) ∙ h) m.vms
        v.settled);
  ids = rw vms (
      All-write _ _ a (rw (id, next) (All-linked _ m.vms v.ids a l))
        (λ x ne h. rw (same x ne, next) h) m.vms v.ids);
  distinct = rw vms v.distinct;
  room = rw (vms, next) v.room;
  ids_fit = rw next v.ids_fit;
}
  where
    moved :
        tally (active_at vm') m.vms + one_if (active_at vm a)
        ≡ tally (active_at vm) m.vms + one_if (active_at vm' a)
    moved = tally-write vm vm' a m.vms v.distinct l same

    small : m.running_count + 1 < 2 ^ 32
    small = omega (arith, v, tally-le (active_at vm) m.vms)

    busy : active_at vm a ≡ true → 0 < m.running_count
    busy on = ground (arith, tally-update (active_at vm) a false m.vms v.distinct l)

module _ (w : World) (a : ℕ) (v : IsSettled w.vm w.mgr) (l : linked a w.mgr.vms ≡ true) where
  start-IsSettled : (now : ℕ) → let w' = (virt_vm_start w a now).1 in IsSettled w'.vm w'.mgr
  unfolding virt_vm_start
  start-IsSettled now =
      write-IsSettled w.vm _ w.mgr _ a v l (λ x ne. ground arith)
        (ground (arith, All-linked _ w.mgr.vms v.settled a l)) (ground arith) (ground arith)
        (ground arith) (ground arith) (λ s b. ground arith)

  stop-IsSettled : (now : ℕ) → let w' = (virt_vm_stop w a now).1 in IsSettled w'.vm w'.mgr
  unfolding virt_vm_stop
  stop-IsSettled now =
      write-IsSettled w.vm _ w.mgr _ a v l (λ x ne. ground arith)
        (ground (arith, All-linked _ w.mgr.vms v.settled a l)) (ground arith) (ground arith)
        (ground arith) (ground arith) (λ s b. ground arith)

  force_stop-IsSettled :
      (now : ℕ) → let w' = (virt_vm_force_stop w a now).1 in IsSettled w'.vm w'.mgr
  unfolding virt_vm_force_stop
  force_stop-IsSettled now =
      write-IsSettled w.vm _ w.mgr _ a v l (λ x ne. ground arith)
        (ground (arith, All-linked _ w.mgr.vms v.settled a l)) (ground arith) (ground arith)
        (ground arith) (ground arith) (λ s b. ground arith)

  pause-IsSettled : let w' = (virt_vm_pause w a).1 in IsSettled w'.vm w'.mgr
  unfolding virt_vm_pause
  pause-IsSettled =
      write-IsSettled w.vm _ w.mgr _ a v l (λ x ne. ground arith)
        (ground (arith, All-linked _ w.mgr.vms v.settled a l)) (ground arith) (ground arith)
        (ground arith) (ground arith) (λ s b. ground arith)

  resume-IsSettled : let w' = (virt_vm_resume w a).1 in IsSettled w'.vm w'.mgr
  unfolding virt_vm_resume
  resume-IsSettled =
      write-IsSettled w.vm _ w.mgr _ a v l (λ x ne. ground arith)
        (ground (arith, All-linked _ w.mgr.vms v.settled a l)) (ground arith) (ground arith)
        (ground arith) (ground arith) (λ s b. ground arith)

  migrate-IsSettled :
      (target : ℕ) → let w' = (virt_vm_migrate w a target).1 in IsSettled w'.vm w'.mgr
  unfolding virt_vm_migrate
  migrate-IsSettled target =
      write-IsSettled w.vm _ w.mgr _ a v l (λ x ne. ground arith)
        (ground (arith, All-linked _ w.mgr.vms v.settled a l)) (ground arith) (ground arith)
        (ground arith) (ground arith) (λ s b. ground arith)

  update_stats-IsSettled : let w' = virt_vm_update_stats w a in IsSettled w'.vm w'.mgr
  unfolding virt_vm_update_stats
  update_stats-IsSettled =
      write-IsSettled w.vm _ w.mgr _ a v l (λ x ne. ground arith)
        (ground (arith, All-linked _ w.mgr.vms v.settled a l)) (ground arith) (ground arith)
        (ground arith) (ground arith) (λ s b. ground arith)

-- The list of machines is none of these operations' business.
vms-stop : (w : World) (a now : ℕ) → (virt_vm_stop w a now).1.mgr.vms ≡ w.mgr.vms
unfolding virt_vm_stop
vms-stop w a now = ground arith

vms-force_stop : (w : World) (a now : ℕ) → (virt_vm_force_stop w a now).1.mgr.vms ≡ w.mgr.vms
unfolding virt_vm_force_stop
vms-force_stop w a now = ground arith

restart-IsSettled :
    (w : World) (a now : ℕ)
    → IsSettled w.vm w.mgr
    → linked a w.mgr.vms ≡ true
    → let w' = (virt_vm_restart w a now).1 in IsSettled w'.vm w'.mgr
unfolding virt_vm_restart
restart-IsSettled w a now v l =
    let still = λ (u : World) (e : u.mgr.vms ≡ w.mgr.vms). ap (linked a) e ∙ l in
    let s = stop-IsSettled w a v l now in
    let ls = still (virt_vm_stop w a now).1 (vms-stop w a now) in
    let f = force_stop-IsSettled (virt_vm_stop w a now).1 a s ls now in
    let lf = ap (linked a) (vms-force_stop (virt_vm_stop w a now).1 a now) ∙ ls in
    elim (Bool-cases (a == 0)) [
      | inl z ↦ rw z v
      | inr z ↦ rw z (elim (Bool-cases (virt_vm_stop w a now).0) [
        | inl h ↦ rw h (start-IsSettled (virt_vm_stop w a now).1 a s ls now)
        | inr h ↦
            rw h (start-IsSettled (virt_vm_force_stop (virt_vm_stop w a now).1 a now).1 a f lf now)
      ])
    ]

create-IsSettled :
    (w : World) (a : ℕ) (config : VmConfig) (now : ℕ)
    → IsSettled w.vm w.mgr
    → All (λ y. a ≢ y) w.mgr.vms
    → w.mgr.next_vm_id + 1 < 2 ^ 32
    → let w' = (virt_vm_create w a config now).1 in IsSettled w'.vm w'.mgr
unfolding virt_vm_create
create-IsSettled w a config now v new fits = elim (Bool-cases (a == 0)) [
  | inl z ↦ rw z v
  | inr z ↦ rw z (record {
    counted = omega (arith, v);
    active = ground (arith, v.active, kept);
    settled = (
      ground arith,
      All-map (λ x ne. ground arith) w.mgr.vms (All-zip _ _ w.mgr.vms new v.settled),
    );
    ids =
        (ground arith, All-map (λ x ne. ground arith) w.mgr.vms (All-zip _ _ w.mgr.vms new v.ids));
    distinct = (new, v.distinct);
    room = omega (arith, v);
    ids_fit = omega arith;
  })
]
  where
    kept :
        tally (active_at (update w.vm a (new_vm w config now))) w.mgr.vms
        ≡ tally (active_at w.vm) w.mgr.vms
    kept = tally-ext _ _ w.mgr.vms (All-map (λ x ne. ground arith) w.mgr.vms new)

-- A machine that is not active leaves the list.
drop-IsSettled :
    (vm : ℕ → Vm) (m : Manager) (a : ℕ)
    → IsSettled vm m
    → linked a m.vms ≡ true
    → active_at vm a ≡ false
    → IsSettled vm (record m {
      vms = unlink a m.vms;
      vm_count = if linked a m.vms then sub32 m.vm_count 1 else m.vm_count;
    })
drop-IsSettled vm m a v l off = record {
  counted = ground (arith, length-unlink a m.vms);
  active = ground (arith, tally-unlink (active_at vm) a m.vms);
  settled = unlink-All _ a m.vms v.settled;
  ids = unlink-All _ a m.vms v.ids;
  distinct = unlink-Distinct a m.vms v.distinct;
  room = ground (arith, length-unlink a m.vms);
  ids_fit = v.ids_fit;
}

force_stop-inactive :
    (w : World) (a now : ℕ)
    → a ≢ 0
    → active_at w.vm a ≡ true
    → active_at (virt_vm_force_stop w a now).1.vm a ≡ false
unfolding virt_vm_force_stop
force_stop-inactive w a now nz on = ground arith

destroy-IsSettled :
    (w : World) (a now : ℕ)
    → IsSettled w.vm w.mgr
    → linked a w.mgr.vms ≡ true
    → let w' = virt_vm_destroy w a now in IsSettled w'.vm w'.mgr
unfolding virt_vm_destroy
destroy-IsSettled w a now v l = elim (Bool-cases (a == 0)) [
  | inl z ↦ rw z v
  | inr z ↦ rw z (elim (Bool-cases (active_at w.vm a)) [
    | inr off ↦ rw off (drop-IsSettled w.vm w.mgr a v l off)
    | inl on ↦ rw on (
        drop-IsSettled _ _ a (force_stop-IsSettled w a v l now)
          (ap (linked a) (vms-force_stop w a now) ∙ l)
          (force_stop-inactive w a now (ground arith) on))
  ])
]

-- The calls that a client makes, each with the value of the time stamp counter, and, for a creation,
-- the address of the new machine.
pub data Call : Type 0 where
  create : ℕ → VmConfig → ℕ → Call
  start stop force_stop restart destroy migrate : ℕ → ℕ → Call
  pause resume update_stats : ℕ → Call

unfoldable pub apply : World → Call → World
apply w (create a config now) = (virt_vm_create w a config now).1
apply w (start a now) = (virt_vm_start w a now).1
apply w (stop a now) = (virt_vm_stop w a now).1
apply w (force_stop a now) = (virt_vm_force_stop w a now).1
apply w (restart a now) = (virt_vm_restart w a now).1
apply w (destroy a now) = virt_vm_destroy w a now
apply w (migrate a target) = (virt_vm_migrate w a target).1
apply w (pause a) = (virt_vm_pause w a).1
apply w (resume a) = (virt_vm_resume w a).1
apply w (update_stats a) = virt_vm_update_stats w a

-- A call is on a machine of the manager; a new one stands at an unused address while identifiers
-- last.
abbrev pub IsAllowed : World → Call → Type 0
IsAllowed w (create a config now) = All (λ y. a ≢ y) w.mgr.vms × (w.mgr.next_vm_id + 1 < 2 ^ 32)
IsAllowed w (start a now) = linked a w.mgr.vms ≡ true
IsAllowed w (stop a now) = linked a w.mgr.vms ≡ true
IsAllowed w (force_stop a now) = linked a w.mgr.vms ≡ true
IsAllowed w (restart a now) = linked a w.mgr.vms ≡ true
IsAllowed w (destroy a now) = linked a w.mgr.vms ≡ true
IsAllowed w (migrate a target) = linked a w.mgr.vms ≡ true
IsAllowed w (pause a) = linked a w.mgr.vms ≡ true
IsAllowed w (resume a) = linked a w.mgr.vms ≡ true
IsAllowed w (update_stats a) = linked a w.mgr.vms ≡ true

apply-IsSettled :
    (w : World) (c : Call)
    → IsSettled w.vm w.mgr
    → IsAllowed w c
    → IsSettled (apply w c).vm (apply w c).mgr
unfolding apply
apply-IsSettled w (create a config now) v h = create-IsSettled w a config now v h.0 h.1
apply-IsSettled w (start a now) v h = start-IsSettled w a v h now
apply-IsSettled w (stop a now) v h = stop-IsSettled w a v h now
apply-IsSettled w (force_stop a now) v h = force_stop-IsSettled w a v h now
apply-IsSettled w (restart a now) v h = restart-IsSettled w a now v h
apply-IsSettled w (destroy a now) v h = destroy-IsSettled w a now v h
apply-IsSettled w (migrate a target) v h = migrate-IsSettled w a v h target
apply-IsSettled w (pause a) v h = pause-IsSettled w a v h
apply-IsSettled w (resume a) v h = resume-IsSettled w a v h
apply-IsSettled w (update_stats a) v h = update_stats-IsSettled w a v h

-- What a sequence of allowed calls reaches.
pub data Reaches (w : World) : World → Type 0 where
  here : Reaches w w
  then_call : {u : World} → Reaches w u → (c : Call) → IsAllowed u c → Reaches w (apply u c)

-- From a fresh manager no sequence of allowed calls leaves a machine between states: every machine
-- is created, running, paused or stopped, `vm_count` is the number of machines and `running_count`
-- the number of those that run or are paused.
pub Reaches-IsSettled :
    (w : World) (local_node : ℕ) {u : World}
    → Reaches (record w { mgr = vm_manager_init local_node }) u
    → IsSettled u.vm u.mgr
unfolding vm_manager_init
Reaches-IsSettled w local_node here = record {
  counted = refl;
  active = refl;
  settled = tt;
  ids = tt;
  distinct = tt;
  room = omega arith;
  ids_fit = omega arith;
}
Reaches-IsSettled w local_node (then_call r c h) =
    apply-IsSettled _ c (Reaches-IsSettled w local_node r) h
