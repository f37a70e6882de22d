-- ===== src/Memory/Pmm.antt =====
-- The page allocator: src/mm/pmm.c, over include/mm/pmm.h. Pages are numbered; the doubly linked free
-- list of a zone and an order is the list of its pages, and a page that leaves one is on it.
pub mod Accounts
pub mod Allocation
pub mod Freeing
pub mod Init
use purevisor.Base.{
  ℕ, zero, suc, ◌+◌, ◌-◌, ◌*◌, ◌/◌, ◌%◌, ◌^◌, Bool, true, false, ◌&&◌, ◌||◌, not, List, [], ◌∷◌,
  Option, none, some, if◌then◌else◌, ltb, leb, ◌==◌, add32, sub32, add64, sub64, mul64, update,
  unlink,
}

-- The values that the code gives to `flags`: PAGE_FLAG_FREE, PAGE_FLAG_PRESENT | PAGE_FLAG_KERNEL and
-- PAGE_FLAG_RESERVED.
pub data PageFlags : Type 0 where
  free in_use reserved : PageFlags

abbrev pub is_free : PageFlags → Bool
is_free free = true
is_free _ = false

-- `page_t`, whose links are the lists below.
pub record Page : Type 0 where
  pub flags : PageFlags
  pub order : ℕ
  pub refcount : ℕ

-- `zone_t`: its free lists and their counts by order.
pub record Zone : Type 0 where
  pub list : ℕ → List ℕ
  pub count : ℕ → ℕ
  pub free_pages : ℕ

-- The globals of the allocator: zones 0, 1 and 2 are ZONE_DMA, ZONE_NORMAL and ZONE_HIGH.
pub record Pmm : Type 0 where
  pub page : ℕ → Page
  pub page_count : ℕ
  pub zone : ℕ → Zone
  pub free_memory : ℕ
  pub used_memory : ℕ
  pub alloc_count : ℕ
  pub free_count : ℕ

-- PMM_MAX_ORDER
abbrev pub max_order : ℕ
max_order = 11

-- 16 MB and 4 GB are the bounds between the zones.
abbrev pub get_zone : ℕ → ℕ
get_zone addr = if ltb addr 16777216 then 0 else if ltb addr 4294967296 then 1 else 2

unfoldable pub free_list_add : Pmm → ℕ → ℕ → ℕ → Pmm
free_list_add p z page order = record p {
  page = update p.page page (record (p.page page) { flags = free; order = order });
  zone = update p.zone z (record {
    list = update (p.zone z).list order (page ∷ (p.zone z).list order);
    count = update (p.zone z).count order (add64 ((p.zone z).count order) 1);
    free_pages = add64 (p.zone z).free_pages (2 ^ order);
  });
}

unfoldable pub free_list_remove : Pmm → ℕ → ℕ → ℕ → Pmm
free_list_remove p z page order = record p {
  zone = update p.zone z (record {
    list = update (p.zone z).list order (unlink page ((p.zone z).list order));
    count = update (p.zone z).count order (sub64 ((p.zone z).count order) 1);
    free_pages = sub64 (p.zone z).free_pages (2 ^ order);
  });
}

-- pfn ^ (1 << order)
abbrev pub buddy_of : ℕ → ℕ → ℕ
buddy_of pfn order = if (pfn / 2 ^ order) % 2 == 0 then pfn + 2 ^ order else pfn - 2 ^ order

-- `none` is NULL.
abbrev pub get_buddy : Pmm → ℕ → ℕ → Option ℕ
get_buddy p page order =
    if leb p.page_count (buddy_of page order) then none else some (buddy_of page order)

-- The loop from order `target + n` down to `target`.
unfoldable pub split_block : Pmm → ℕ → ℕ → ℕ → ℕ → Pmm
split_block p z page target zero = p
split_block p z page target (suc n) =
    split_block (free_list_add p z (page + 2 ^ (target + n)) (target + n)) z page target n

-- Whether `coalesce_buddies` goes on with what `get_buddy` gives.
abbrev pub joins : Pmm → ℕ → Option ℕ → Bool
joins p order none = false
joins p order (some b) = is_free (p.page b).flags && ((p.page b).order == order)

abbrev pub lower : ℕ → ℕ → ℕ
lower page buddy = if ltb buddy page then buddy else page

-- The last number is the rounds left, `max_order - order`.
unfoldable pub coalesce_buddies : Pmm → ℕ → ℕ → ℕ → ℕ → Pmm
coalesce_buddies p z page order zero = free_list_add p z page order
coalesce_buddies p z page order (suc n) =
    let b = buddy_of page order in
    let merged = coalesce_buddies (free_list_remove p z b order) z (lower page b) (order + 1) n in
    if joins p order (get_buddy p page order) then merged else free_list_add p z page order

-- The first order from `o` on with a free block in the zone, and the block; the last number is the
-- orders left.
unfoldable pub first_block : Zone → ℕ → ℕ → Option (ℕ × ℕ)
first_block z o zero = none
first_block z o (suc n) = elim (z.list o) [ [] ↦ first_block z (o + 1) n | b ∷ _ ↦ some (o, b) ]

abbrev pub in_zone : ℕ → Option (ℕ × ℕ) → Option (ℕ × (ℕ × ℕ))
in_zone z none = none
in_zone z (some b) = some (z, b)

-- ZONE_NORMAL, then ZONE_DMA: the zone, the order and the block.
unfoldable pub find_block : Pmm → ℕ → Option (ℕ × (ℕ × ℕ))
find_block p order = elim (first_block (p.zone 1) order (max_order + 1 - order)) [
  | some b ↦ some (1, b)
  | none ↦ in_zone 0 (first_block (p.zone 0) order (max_order + 1 - order))
]

-- What happens to the block found.
unfoldable pub take_block : Pmm → ℕ → ℕ → ℕ → ℕ → Pmm
take_block p z o b order =
    let q = split_block (free_list_remove p z b o) z b order (o - order) in
    record q {
      page = update q.page b (record { flags = in_use; order = order; refcount = 1 });
      alloc_count = add64 q.alloc_count 1;
      free_memory = sub64 q.free_memory (mul64 (2 ^ order) 4096);
      used_memory = add64 q.used_memory (mul64 (2 ^ order) 4096);
    }

abbrev pub take_found : Pmm → ℕ → Option (ℕ × (ℕ × ℕ)) → ℕ × Pmm
take_found p order none = (0, p)
take_found p order (some (z, (o, b))) = (b * 4096, take_block p z o b order)

-- The physical address, or 0.
unfoldable pub pmm_alloc_pages : Pmm → ℕ → ℕ × Pmm
pmm_alloc_pages p order =
    if ltb max_order order then (0, p) else take_found p order (find_block p order)

abbrev pub count_free : Pmm → ℕ → Pmm
count_free p order = record p {
  free_count = add64 p.free_count 1;
  free_memory = add64 p.free_memory (mul64 (2 ^ order) 4096);
  used_memory = sub64 p.used_memory (mul64 (2 ^ order) 4096);
}

unfoldable pub pmm_free_pages : Pmm → ℕ → ℕ → Pmm
pmm_free_pages p addr order =
    if addr == 0 || ltb max_order order
    then p
    else if leb p.page_count (addr / 4096)
    then p
    else if is_free (p.page (addr / 4096)).flags
    then p
    else coalesce_buddies (count_free p order) (get_zone addr) (addr / 4096) order
        (max_order - order)

-- `none` is NULL.
abbrev pub pmm_get_page : Pmm → ℕ → Option Page
pmm_get_page p addr = if leb p.page_count (addr / 4096) then none else some (p.page (addr / 4096))

-- The sum over the three zones.
abbrev pub pmm_get_free_pages : Pmm → ℕ
pmm_get_free_pages p =
    add64 (add64 (p.zone 0).free_pages (p.zone 1).free_pages) (p.zone 2).free_pages
