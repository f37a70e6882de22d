-- ===== src/Cluster/Vm.antt =====
-- The life of virtual machines: src/cluster/vm.c, over include/cluster/vm.h.
-- `now` is what `rdtsc` returns; the UUID, which nothing reads, and the log lines are left out.
pub mod Lifecycle
pub mod Migration
use purevisor.Base.{
  str_eq, ℕ, Bool, true, false, ◌&&◌, ◌||◌, not, List, [], ◌∷◌, if◌then◌else◌, ◌==◌, add32, sub32,
  add64, update, unlink, linked, find_first, String,
}
use purevisor.Cluster.Node.{Node}
use purevisor.Cluster.World.{
  World, Vm, VmState, VmConfig, Manager, StateChange, created, starting, running, paused, stopping,
  stopped, migrating, error,
}

unfoldable pub vm_manager_init : ℕ → Manager
vm_manager_init local_node = record {
  vms = [];
  vm_count = 0;
  running_count = 0;
  local_node = local_node;
  next_vm_id = 1;
  on_vm_state_change = false;
  changes = [];
}

-- vm->state == VM_STATE_RUNNING || vm->state == VM_STATE_PAUSED
abbrev pub is_active : VmState → Bool
is_active running = true
is_active paused = true
is_active _ = false

-- vm->state == VM_STATE_CREATED || vm->state == VM_STATE_STOPPED
abbrev pub is_startable : VmState → Bool
is_startable created = true
is_startable stopped = true
is_startable _ = false

abbrev pub is_running : VmState → Bool
is_running running = true
is_running _ = false

abbrev pub is_paused : VmState → Bool
is_paused paused = true
is_paused _ = false

abbrev pub vm_set_state : World → ℕ → VmState → World
vm_set_state w a s = record w {
  vm = update w.vm a (record (w.vm a) { state = s });
  mgr =
      if w.mgr.on_vm_state_change
      then record (w.mgr) {
        changes = record { vm = a; old_state = (w.vm a).state; new_state = s } ∷ w.mgr.changes;
      }
      else w.mgr;
}

-- The machine that `virt_vm_create` fills in at the address `kmalloc` returned, 0 for none.
abbrev pub new_vm : World → VmConfig → ℕ → Vm
new_vm w config now = record {
  id = w.mgr.next_vm_id;
  config = config;
  state = created;
  created_time = now;
  started_time = 0;
  stopped_time = 0;
  host_node = w.mgr.local_node;
  host_node_id = if w.mgr.local_node == 0 then 0 else (w.node w.mgr.local_node).id;
  cpu_time_ns = 0;
  error_msg = "";
}

-- The address of the machine, or 0.
unfoldable pub virt_vm_create : World → ℕ → VmConfig → ℕ → ℕ × World
virt_vm_create w a config now = if a == 0 then (0, w) else (
  a,
  record w {
    vm = update w.vm a (new_vm w config now);
    mgr = record (w.mgr) {
      vms = a ∷ w.mgr.vms;
      vm_count = add32 w.mgr.vm_count 1;
      next_vm_id = add32 w.mgr.next_vm_id 1;
    };
  },
)

-- if (mgr->local_node) mgr->local_node->vm_count += or -= 1;
abbrev pub count_local : (ℕ → ℕ) → World → World
count_local f w = if w.mgr.local_node == 0 then w else record w {
  node =
      update w.node w.mgr.local_node
        (record (w.node w.mgr.local_node) { vm_count = f (w.node w.mgr.local_node).vm_count });
}

abbrev pub up : ℕ → ℕ
up n = add32 n 1

abbrev pub down : ℕ → ℕ
down n = sub32 n 1

abbrev pub count_running : (ℕ → ℕ) → World → World
count_running f w = record w { mgr = record (w.mgr) { running_count = f w.mgr.running_count } }

abbrev pub set_started : World → ℕ → ℕ → World
set_started w a now = record w { vm = update w.vm a (record (w.vm a) { started_time = now }) }

abbrev pub set_stopped : World → ℕ → ℕ → World
set_stopped w a now = record w { vm = update w.vm a (record (w.vm a) { stopped_time = now }) }

abbrev pub set_error : World → ℕ → String → World
set_error w a msg = record w { vm = update w.vm a (record (w.vm a) { error_msg = msg }) }

-- A return value of 0 is `true`, and -1 is `false`.
unfoldable pub virt_vm_start : World → ℕ → ℕ → Bool × World
virt_vm_start w a now =
    if a == 0
    then (false, w)
    else if is_startable (w.vm a).state
    then (
      true,
      count_local up (
          count_running up
            (vm_set_state (set_started (vm_set_state w a starting) a now) a running)),
    )
    else (false, set_error w a "VM not in startable state")

pub virt_vm_stop : World → ℕ → ℕ → Bool × World
virt_vm_stop w a now =
    if a == 0
    then (false, w)
    else if is_active (w.vm a).state
    then (
      true,
      count_local down (
          count_running down
            (vm_set_state (set_stopped (vm_set_state w a stopping) a now) a stopped)),
    )
    else (false, w)

-- What `virt_vm_force_stop` does to a machine that is neither stopped nor just created.
abbrev pub force : World → ℕ → World
force w a =
    vm_set_state (if is_active (w.vm a).state then count_local down (count_running down w) else w) a
      stopped

pub virt_vm_force_stop : World → ℕ → ℕ → Bool × World
virt_vm_force_stop w a now =
    if a == 0
    then (false, w)
    else if is_startable (w.vm a).state
    then (true, w)
    else (true, force (set_stopped w a now) a)

pub virt_vm_pause : World → ℕ → Bool × World
virt_vm_pause w a =
    if a == 0
    then (false, w)
    else if is_running (w.vm a).state
    then (true, vm_set_state w a paused)
    else (false, w)

pub virt_vm_resume : World → ℕ → Bool × World
virt_vm_resume w a =
    if a == 0
    then (false, w)
    else if is_paused (w.vm a).state
    then (true, vm_set_state w a running)
    else (false, w)

pub virt_vm_restart : World → ℕ → ℕ → Bool × World
virt_vm_restart w a now =
    if a == 0
    then (false, w)
    else let (halted, w') = virt_vm_stop w a now in
      virt_vm_start (if halted then w' else (virt_vm_force_stop w' a now).1) a now

-- The machine leaves the list; its memory is freed, so nothing below names it any more.
pub virt_vm_destroy : World → ℕ → ℕ → World
virt_vm_destroy w a now =
    if a == 0
    then w
    else let w' = if is_active (w.vm a).state then (virt_vm_force_stop w a now).1 else w in
      record w' {
        mgr = record (w'.mgr) {
          vms = unlink a w'.mgr.vms;
          vm_count = if linked a w'.mgr.vms then sub32 w'.mgr.vm_count 1 else w'.mgr.vm_count;
        };
      }

-- The address of the machine found, or 0.
unfoldable pub virt_vm_find : World → ℕ → ℕ
virt_vm_find w id = find_first (λ a. (w.vm a).id == id) w.mgr.vms

abbrev pub virt_vm_find_by_name : World → List ℕ → ℕ
virt_vm_find_by_name w name = find_first (λ a. str_eq (w.vm a).config.name name) w.mgr.vms

pub virt_vm_update_stats : World → ℕ → World
virt_vm_update_stats w a = if a == 0 || not (is_running (w.vm a).state) then w else record w {
  vm = update w.vm a (record (w.vm a) { cpu_time_ns = add64 (w.vm a).cpu_time_ns 1000000 });
}

abbrev pub virt_vm_can_migrate : World → ℕ → Bool
virt_vm_can_migrate w a = not (a == 0) && is_active (w.vm a).state

-- if (vm->host_node) { vm->host_node->vm_count--; vm->host_node->total_migrations++; }
abbrev pub leave_host : World → ℕ → World
leave_host w h = if h == 0 then w else record w {
  node = update w.node h (record (w.node h) {
    vm_count = sub32 (w.node h).vm_count 1;
    total_migrations = add64 (w.node h).total_migrations 1;
  });
}

abbrev pub enter_host : World → ℕ → ℕ → World
enter_host w a t = record w {
  vm = update w.vm a (record (w.vm a) { host_node = t; host_node_id = (w.node t).id });
  node = update w.node t (record (w.node t) { vm_count = add32 (w.node t).vm_count 1 });
}

unfoldable pub virt_vm_migrate : World → ℕ → ℕ → Bool × World
virt_vm_migrate w a target =
    if a == 0 || target == 0
    then (false, w)
    else if virt_vm_can_migrate w a
    then if (w.vm a).host_node == target then (true, w) else (
      true,
      vm_set_state
          (enter_host (leave_host (vm_set_state w a migrating) (w.vm a).host_node) a target) a
          (w.vm a).state,
    )
    else (false, set_error w a "VM cannot be migrated")
