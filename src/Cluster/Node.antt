-- ===== src/Cluster/Node.antt =====
-- One node of the cluster: the first half of src/cluster/node.c, over include/cluster/node.h.
-- A name, an address and a tag is the list of its bytes before the NUL, so `strcmp` is equality of
-- lists and `strncpy` with bound n keeps the first n bytes.
use Prim.Native.Nat.{bit_and, bit_or}
use purevisor.Base.{
  str_eq, ℕ, ◌-◌, ◌^◌, Bool, true, false, List, [], ◌∷◌, ◌++◌, if◌then◌else◌, ltb, leb, add32,
  sub32, sub64, mul64, take,
}

-- NODE_STATE_UNKNOWN and the six others.
pub data NodeState : Type 0 where
  unknown joining online degraded offline leaving failed : NodeState

abbrev pub is_online : NodeState → Bool
is_online online = true
is_online _ = false

-- `node_health_t`, without the alerts that no code here touches.
pub record Health : Type 0 where
  pub score : ℕ
  pub last_heartbeat : ℕ
  pub last_health_check : ℕ
  pub failed_checks : ℕ
  pub consecutive_failures : ℕ
  pub cpu_healthy : Bool
  pub memory_healthy : Bool
  pub storage_healthy : Bool
  pub network_healthy : Bool

-- `node_resources_t`, by the fields that are read: threads, memory and storage in bytes.
pub record Resources : Type 0 where
  pub total_threads : ℕ
  pub vmx_supported : Bool
  pub svm_supported : Bool
  pub model : List ℕ
  pub total_bytes : ℕ
  pub free_bytes : ℕ
  pub used_bytes : ℕ
  pub storage_total : ℕ
  pub storage_free : ℕ

-- `cluster_node_t`; the links of the list of nodes are the cluster's list of addresses.
pub record Node : Type 0 where
  pub id : ℕ
  pub name : List ℕ
  pub address : List ℕ
  pub port : ℕ
  pub state : NodeState
  pub roles : ℕ
  pub joined_time : ℕ
  pub uptime : ℕ
  pub resources : Resources
  pub health : Health
  pub tags : List (List ℕ)
  pub tag_count : ℕ
  pub vm_count : ℕ
  pub total_migrations : ℕ
  pub is_local : Bool

abbrev pub no_health : Health
no_health = record {
  score = 0;
  last_heartbeat = 0;
  last_health_check = 0;
  failed_checks = 0;
  consecutive_failures = 0;
  cpu_healthy = false;
  memory_healthy = false;
  storage_healthy = false;
  network_healthy = false;
}

abbrev pub no_resources : Resources
no_resources = record {
  total_threads = 0;
  vmx_supported = false;
  svm_supported = false;
  model = [];
  total_bytes = 0;
  free_bytes = 0;
  used_bytes = 0;
  storage_total = 0;
  storage_free = 0;
}

-- The node that `node_create` fills in when `kmalloc` gave memory, and the next value of its
-- counter `next_node_id`.
unfoldable pub node_create : ℕ → List ℕ → List ℕ → ℕ → Node × ℕ
node_create next_node_id name address port = (
  record {
    id = next_node_id;
    name = take 63 name;
    address = take 63 address;
    port = port;
    state = unknown;
    roles = 0;
    joined_time = 0;
    uptime = 0;
    resources = no_resources;
    health = record no_health { score = 100 };
    tags = [];
    tag_count = 0;
    vm_count = 0;
    total_migrations = 0;
    is_local = false;
  },
  add32 next_node_id 1,
)

unfoldable pub node_set_state : Node → NodeState → Node
node_set_state n s = record n { state = s }

unfoldable pub node_add_role : Node → ℕ → Node
node_add_role n role = record n { roles = bit_or n.roles role }

unfoldable pub node_remove_role : Node → ℕ → Node
node_remove_role n role = record n { roles = bit_and n.roles (2 ^ 32 - 1 - role) }

-- `false` is the return value -1.
unfoldable pub node_add_tag : Node → List ℕ → Bool × Node
node_add_tag n tag =
    if leb 16 n.tag_count
    then (false, n)
    else (true, record n { tags = n.tags ++ (take 31 tag ∷ []); tag_count = add32 n.tag_count 1 })

-- `tags` holds the first `tag_count` entries of the array.
abbrev pub has_string : List (List ℕ) → List ℕ → Bool
has_string [] s = false
has_string (t ∷ ts) s = if str_eq t s then true else has_string ts s

unfoldable pub node_has_tag : Node → List ℕ → Bool
node_has_tag n tag = has_string n.tags tag

-- The processor's and the page allocator's answers are arguments.
unfoldable pub node_update_resources : Node → ℕ → Bool → Bool → List ℕ → ℕ → ℕ → Node
node_update_resources n cpus vmx svm brand total_pages free_pages = record n {
  resources = record (n.resources) {
    total_threads = cpus;
    vmx_supported = vmx;
    svm_supported = svm;
    model = take 63 brand;
    total_bytes = mul64 total_pages 4096;
    free_bytes = mul64 free_pages 4096;
    used_bytes = sub64 (mul64 total_pages 4096) (mul64 free_pages 4096);
  };
}

-- if (!healthy) score -= 25;
abbrev pub deduct : Bool → ℕ → ℕ
deduct healthy score = if healthy then score else sub32 score 25

abbrev pub health_score : Health → ℕ
health_score h =
    deduct h.network_healthy
      (deduct h.storage_healthy (deduct h.memory_healthy (deduct h.cpu_healthy 100)))

abbrev pub count_failure : Health → Health
count_failure h =
    if ltb h.score 50
    then record h {
      failed_checks = add32 h.failed_checks 1;
      consecutive_failures = add32 h.consecutive_failures 1;
    }
    else record h { consecutive_failures = 0 }

-- `now` is the time stamp counter.
unfoldable pub node_health_check : Node → ℕ → Node
node_health_check n now = record n {
  health = count_failure (record checked { score = health_score checked });
}
  where
    checked : Health
    checked = record (n.health) {
      last_health_check = now;
      cpu_healthy = true;
      memory_healthy = ltb 0 n.resources.free_bytes;
      storage_healthy = true;
      network_healthy = true;
    }
