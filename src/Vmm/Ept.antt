-- ===== src/Vmm/Ept.antt =====
-- Extended page tables: src/vmm/ept.c, over include/vmm/ept.h. A table stands at its physical address, as
-- the kernel maps all memory at a fixed distance; `supply` is what `pmm_alloc_page` hands out.
pub mod Bits
pub mod Large
pub mod Translate
pub mod Tree
pub mod Walk
use Prim.Native.Nat.{bit_or}
use purevisor.Base.{
  ℕ, zero, suc, ◌+◌, ◌-◌, ◌*◌, ◌/◌, ◌%◌, ◌^◌, Bool, true, false, ◌&&◌, ◌||◌, not, List, [], ◌∷◌,
  Option, none, some, if◌then◌else◌, ltb, leb, ◌==◌, add64, sub64, update,
}

-- `ept_context_t` with the memory of its tables.
pub record Ept : Type 0 where
  pub tables : ℕ → ℕ → ℕ
  pub pml4 : ℕ
  pub eptp : ℕ
  pub mapped_pages : ℕ
  pub supply : List ℕ

-- entry & EPT_READ
abbrev pub is_present : ℕ → Bool
is_present e = e % 2 == 1

-- entry & EPT_LARGE_PAGE
abbrev pub is_large : ℕ → Bool
is_large e = e / 128 % 2 == 1

-- entry & EPT_ADDR_MASK
abbrev pub address_of : ℕ → ℕ
address_of e = e / 4096 % 2 ^ 40 * 4096

-- EPT_PML4_INDEX and the three others.
abbrev pub pml4_index : ℕ → ℕ
pml4_index g = g / 2 ^ 39 % 512

abbrev pub pdpt_index : ℕ → ℕ
pdpt_index g = g / 2 ^ 30 % 512

abbrev pub pd_index : ℕ → ℕ
pd_index g = g / 2 ^ 21 % 512

abbrev pub pt_index : ℕ → ℕ
pt_index g = g / 4096 % 512

-- A table of zeroes, and the context without that page; the address 0 is the answer that there is none.
unfoldable pub ept_alloc_table : Ept → Option (ℕ × Ept)
ept_alloc_table e = elim e.supply [
  | [] ↦ none
  | t ∷ ts ↦
      if t == 0
      then none
      else some (t, record e { tables = update e.tables t (λ i. 0); supply = ts })
]

abbrev pub set_entry : Ept → ℕ → ℕ → ℕ → Ept
set_entry e t i v = record e { tables = update e.tables t (update (e.tables t) i v) }

-- An entry that points at a table: its address | EPT_READ | EPT_WRITE | EPT_EXECUTE.
abbrev pub table_entry : ℕ → ℕ
table_entry t = bit_or t 7

abbrev pub grow : ℕ → ℕ → Option (ℕ × Ept) → Ept → Option ℕ × Ept
grow t i none e = (none, e)
grow t i (some (n, e')) e = (some n, set_entry e' t i (table_entry n))

-- From the entry `i` of table `t` to the table that it points at, which is made if `create` says so.
unfoldable pub descend : Bool → Ept → ℕ → ℕ → Option ℕ × Ept
descend create e t i =
    if is_present (e.tables t i)
    then (some (address_of (e.tables t i)), e)
    else if create
    then grow t i (ept_alloc_table e) e
    else (none, e)

-- The place of an entry: its table, its index, and its level.
pub record Slot : Type 0 where
  pub table : ℕ
  pub index : ℕ
  pub level : ℕ

abbrev pub at_pt : ℕ → Option ℕ × Ept → Option Slot × Ept
at_pt g (none, e) = (none, e)
at_pt g (some pt, e) = (some (record { table = pt; index = pt_index g; level = 1 }), e)

abbrev pub at_pd : Bool → ℕ → Option ℕ × Ept → Option Slot × Ept
at_pd create g (none, e) = (none, e)
at_pd create g (some pd, e) =
    if is_large (e.tables pd (pd_index g))
    then (some (record { table = pd; index = pd_index g; level = 2 }), e)
    else at_pt g (descend create e pd (pd_index g))

abbrev pub at_pdpt : Bool → ℕ → Option ℕ × Ept → Option Slot × Ept
at_pdpt create g (none, e) = (none, e)
at_pdpt create g (some pdpt, e) =
    if is_large (e.tables pdpt (pdpt_index g))
    then (some (record { table = pdpt; index = pdpt_index g; level = 3 }), e)
    else at_pd create g (descend create e pdpt (pdpt_index g))

unfoldable pub ept_walk : Ept → ℕ → Bool → Option Slot × Ept
ept_walk e g create = at_pdpt create g (descend create e e.pml4 (pml4_index g))

-- When `kmalloc` gave memory for the context; `none` is NULL.
abbrev pub ept_create : List ℕ → Option Ept
ept_create [] = none
ept_create (t ∷ ts) =
    if t == 0
    then none
    else some (record {
      tables = λ a i. 0;
      pml4 = t;
      eptp = bit_or (bit_or t 6) 24;
      mapped_pages = 0;
      supply = ts;
    })

abbrev pub page_of : ℕ → ℕ
page_of a = a - a % 4096

abbrev pub leaf : ℕ → ℕ → ℕ → ℕ
leaf host perm memtype = bit_or (bit_or host perm) (memtype * 8)

abbrev pub put_leaf : ℕ → Option Slot × Ept → Bool × Ept
put_leaf v (none, e) = (false, e)
put_leaf v (some s, e) =
    (true, record (set_entry e s.table s.index v) { mapped_pages = add64 e.mapped_pages 1 })

-- The Boolean is false for the return value -1.
unfoldable pub ept_map_page : Ept → ℕ → ℕ → ℕ → ℕ → Bool × Ept
ept_map_page e g h perm memtype =
    put_leaf (leaf (page_of h) perm memtype) (ept_walk e (page_of g) true)

abbrev pub large_leaf : ℕ → ℕ → ℕ → ℕ
large_leaf host perm memtype = bit_or (bit_or (bit_or host perm) 128) (memtype * 8)

abbrev pub put_at : ℕ → ℕ → ℕ → Option ℕ × Ept → Bool × Ept
put_at i v pages (none, e) = (false, e)
put_at i v pages (some t, e) =
    (true, record (set_entry e t i v) { mapped_pages = add64 e.mapped_pages pages })

abbrev pub down : ℕ → Option ℕ × Ept → Option ℕ × Ept
down i (none, e) = (none, e)
down i (some t, e) = descend true e t i

unfoldable pub ept_map_page_2m : Ept → ℕ → ℕ → ℕ → ℕ → Bool × Ept
ept_map_page_2m e g h perm memtype =
    put_at (pd_index g) (large_leaf (h - h % 2 ^ 21) perm memtype) 512
      (down (pdpt_index g) (descend true e e.pml4 (pml4_index g)))

unfoldable pub ept_map_page_1g : Ept → ℕ → ℕ → ℕ → ℕ → Bool × Ept
ept_map_page_1g e g h perm memtype =
    put_at (pdpt_index g) (large_leaf (h - h % 2 ^ 30) perm memtype) 262144
      (descend true e e.pml4 (pml4_index g))

abbrev pub entry_at : Ept → Slot → ℕ
entry_at e s = e.tables s.table s.index

abbrev pub clear_found : Ept → Option Slot → Bool × Ept
clear_found e none = (false, e)
clear_found e (some s) =
    if is_present (entry_at e s)
    then (true, record (set_entry e s.table s.index 0) { mapped_pages = sub64 e.mapped_pages 1 })
    else (false, e)

unfoldable pub ept_unmap_page : Ept → ℕ → Bool × Ept
ept_unmap_page e g = clear_found e (ept_walk e g false).0

abbrev pub set_found : Ept → ℕ → Option Slot → Bool × Ept
set_found e perm none = (false, e)
set_found e perm (some s) =
    (true, set_entry e s.table s.index (bit_or (entry_at e s - entry_at e s % 8) perm))

unfoldable pub ept_set_permissions : Ept → ℕ → ℕ → Bool × Ept
ept_set_permissions e g perm = set_found e perm (ept_walk e g false).0

abbrev pub value_found : Ept → Option Slot → ℕ
value_found e none = 0
value_found e (some s) = entry_at e s

unfoldable pub ept_get_entry_value : Ept → ℕ → ℕ
ept_get_entry_value e g = value_found e (ept_walk e g false).0

-- The part of an address below the page of an entry of the level.
abbrev pub offset_in : ℕ → ℕ → ℕ
offset_in level g = if level == 3 then g % 2 ^ 30 else if level == 2 then g % 2 ^ 21 else g % 4096

abbrev pub host_found : Ept → ℕ → Option Slot → ℕ
host_found e g none = 0
host_found e g (some s) =
    if is_present (entry_at e s)
    then bit_or (address_of (entry_at e s)) (offset_in s.level g)
    else 0

unfoldable pub ept_get_host_phys : Ept → ℕ → ℕ
ept_get_host_phys e g = host_found e g (ept_walk e g false).0

-- What a loop of `ept_map_range` leaves: the context, the two addresses and the size.
pub record Range : Type 0 where
  pub ept : Ept
  pub guest : ℕ
  pub host : ℕ
  pub size : ℕ

abbrev pub advance : Range → Ept → ℕ → Range
advance r e step = record {
  ept = e;
  guest = add64 r.guest step;
  host = add64 r.host step;
  size = r.size - step;
}

-- The loop over large pages, with the rounds left; the Boolean is false for a return of -1.
unfoldable pub map_large : ℕ → ℕ → Range → ℕ → Bool × Range
map_large perm memtype r zero = (true, r)
map_large perm memtype r (suc n) =
    let (ok, e) = ept_map_page_2m r.ept r.guest r.host perm memtype in
    let rest = map_large perm memtype (advance r e (2 ^ 21)) n in
    if (leb (2 ^ 21) r.size && (r.guest % 2 ^ 21 == 0)) && (r.host % 2 ^ 21 == 0)
    then (if ok then rest else (false, record r { ept = e }))
    else (true, r)

unfoldable pub map_small : ℕ → ℕ → Range → ℕ → Bool × Range
map_small perm memtype r zero = (true, r)
map_small perm memtype r (suc n) =
    let (ok, e) = ept_map_page r.ept r.guest r.host perm memtype in
    let rest = map_small perm memtype (advance r e 4096) n in
    if leb 4096 r.size then (if ok then rest else (false, record r { ept = e })) else (true, r)

-- Each loop takes at most as many rounds as the size has pages of its kind.
unfoldable pub ept_map_range : Ept → ℕ → ℕ → ℕ → ℕ → ℕ → Bool × Ept
ept_map_range e g h size perm memtype =
    if size == 0
    then (false, e)
    else let (ok, r) =
        map_large perm memtype (record { ept = e; guest = g; host = h; size = size })
          (size / 2 ^ 21) in
      let (ok', r') = map_small perm memtype r (r.size / 4096) in
      if ok then (ok', r'.ept) else (false, r.ept)
