-- ===== src/Memory/Pmm/Init.antt =====
-- Starting the page allocator: `pmm_init` of src/mm/pmm.c.
use purevisor.Base.{
  none, ℕ, zero, suc, ◌+◌, ◌-◌, ◌*◌, ◌/◌, ◌≡◌, ◌<◌, ◌≤◌, inl, inr, refl, sym, ap, ◌∙◌, List, [],
  ◌∷◌, if◌then◌else◌, ltb, ◌==◌, add64, sub64, mul64, arith, Bool-cases,
}
use purevisor.Memory.Pmm.{
  Pmm, Zone, reserved, get_zone, free_list_add, pmm_alloc_pages, max_order, first_block, find_block,
  in_zone, take_found,
}
use purevisor.Memory.Pmm.Allocation.{first_block_skip, found_dma}

-- `mmap_entry_t`; type 1 is MULTIBOOT_MEMORY_AVAILABLE.
pub record MmapEntry : Type 0 where
  pub addr : ℕ
  pub len : ℕ
  pub type : ℕ

abbrev pub align_up : ℕ → ℕ
align_up a = add64 a 4095 / 4096 * 4096

abbrev pub align_down : ℕ → ℕ
align_down a = a / 4096 * 4096

-- The first pass: the highest address, the total and the reserved memory.
abbrev pub highest_from : ℕ → List MmapEntry → ℕ
highest_from h [] = h
highest_from h (e ∷ es) =
    highest_from (if ltb h (add64 e.addr e.len) then add64 e.addr e.len else h) es

abbrev pub total_memory : List MmapEntry → ℕ
total_memory [] = 0
total_memory (e ∷ es) = add64 e.len (total_memory es)

abbrev pub reserved_memory : List MmapEntry → ℕ
reserved_memory [] = 0
reserved_memory (e ∷ es) =
    if e.type == 1 then reserved_memory es else add64 e.len (reserved_memory es)

abbrev pub pages_below : ℕ → ℕ
pages_below highest = sub64 (add64 highest 4096) 1 / 4096

-- The end of the page array, 32 bytes a page, behind the kernel.
abbrev pub reserved_end_of : ℕ → ℕ → ℕ
reserved_end_of kernel_end count = add64 (align_up kernel_end) (align_up (mul64 count 32))

-- One page of a range, if the page array covers it.
abbrev pub add_page : Pmm → ℕ → Pmm
add_page p start =
    if ltb (start / 4096) p.page_count then free_list_add p (get_zone start) (start / 4096) 0 else p

-- The loop over a range; the last number is the pages left.
unfoldable pub add_range : Pmm → ℕ → ℕ → Pmm
add_range p start zero = p
add_range p start (suc n) = add_range (add_page p start) (start + 4096) n

abbrev pub add_from : Pmm → ℕ → ℕ → Pmm
add_from p start end = add_range p start ((end - start + 4095) / 4096)

-- The second pass.
unfoldable pub add_entries : Pmm → ℕ → List MmapEntry → Pmm
add_entries p reserved_end [] = p
add_entries p reserved_end (e ∷ es) =
    let start = if ltb (align_up e.addr) reserved_end then reserved_end else align_up e.addr in
    add_entries (if e.type == 1 then add_from p start (align_down (add64 e.addr e.len)) else p)
      reserved_end es

-- All pages reserved, and nothing in the lists.
abbrev pub blank : ℕ → Pmm
blank count = record {
  page = λ n. record { flags = reserved; order = 0; refcount = 0 };
  page_count = count;
  zone = λ z. record { list = λ o. []; count = λ o. 0; free_pages = 0 };
  free_memory = 0;
  used_memory = 0;
  alloc_count = 0;
  free_count = 0;
}

-- Every page in a list is counted in its zone: `available_pages` of the source.
abbrev pub available : Pmm → ℕ
available p = add64 (add64 (p.zone 0).free_pages (p.zone 1).free_pages) (p.zone 2).free_pages

-- `kernel_end` is the physical address behind the kernel.
unfoldable pub pmm_init : ℕ → List MmapEntry → Pmm
pmm_init kernel_end map =
    let count = pages_below (highest_from 0 map) in
    let p = add_entries (blank count) (reserved_end_of kernel_end count) map in
    record p {
      free_memory = mul64 (available p) 4096;
      used_memory =
          sub64 (sub64 (total_memory map) (mul64 (available p) 4096)) (reserved_memory map);
    }

-- Only the lists of order 0 hold anything.
abbrev pub HasSinglePages : Pmm → Type 0
HasSinglePages p = (z i : ℕ) → 0 < i → (p.zone z).list i ≡ []

add_page-HasSinglePages :
    (p : Pmm) (start : ℕ) → HasSinglePages p → HasSinglePages (add_page p start)
unfolding free_list_add
add_page-HasSinglePages p start h z i pos =
    ground (arith, h z i pos, ap p.zone {x = z} {y = get_zone start})

add_range-HasSinglePages :
    (p : Pmm) (start n : ℕ) → HasSinglePages p → HasSinglePages (add_range p start n)
unfolding add_range
add_range-HasSinglePages p start zero h = h
add_range-HasSinglePages p start (suc n) h =
    add_range-HasSinglePages (add_page p start) (start + 4096) n (add_page-HasSinglePages p start h)

add_entries-HasSinglePages :
    (reserved_end : ℕ) (es : List MmapEntry) (p : Pmm)
    → HasSinglePages p
    → HasSinglePages (add_entries p reserved_end es)
unfolding add_entries
add_entries-HasSinglePages reserved_end [] p h = h
add_entries-HasSinglePages reserved_end (e ∷ es) p h =
    add_entries-HasSinglePages reserved_end es _ (elim (Bool-cases (e.type == 1)) [
      | inl t ↦ rw t (add_range-HasSinglePages p _ _ h)
      | inr f ↦ rw f h
    ])

first_block_empty :
    (z : Zone) (o n : ℕ) → ((i : ℕ) → o ≤ i → z.list i ≡ []) → first_block z o n ≡ none
unfolding first_block
first_block_empty z o zero h = refl
first_block_empty z o (suc n) h =
    sym (first_block_skip z o n (h o (omega arith)))
    ∙ first_block_empty z (o + 1) n (λ i l. h i (omega (arith, l)))

pmm_init-HasSinglePages :
    (kernel_end : ℕ) (map : List MmapEntry) → HasSinglePages (pmm_init kernel_end map)
unfolding pmm_init
pmm_init-HasSinglePages kernel_end map =
    add_entries-HasSinglePages (reserved_end_of kernel_end (pages_below (highest_from 0 map))) map
      (blank (pages_below (highest_from 0 map))) (λ z i pos. refl)

no_block : (p : Pmm) (order : ℕ) → HasSinglePages p → 0 < order → find_block p order ≡ none
no_block p order h pos =
    found_dma p order (
      first_block_empty (p.zone 1) order (max_order + 1 - order)
        (λ i l. h 1 i (omega (arith, l, pos))))
    ∙ ap (in_zone 0) (
        first_block_empty (p.zone 0) order (max_order + 1 - order)
          (λ i l. h 0 i (omega (arith, l, pos))))

refused : (p : Pmm) (order : ℕ) → find_block p order ≡ none → pmm_alloc_pages p order ≡ (0, p)
unfolding pmm_alloc_pages
refused p order e = elim (Bool-cases (ltb max_order order)) [
  | inl t ↦ rw t refl
  | inr f ↦ rw f (ap (take_found p order) e)
]

-- Right after `pmm_init`, whatever the memory map, every request for more than one page fails: pages
-- enter the lists one by one and are not merged.
pub init_refuses_blocks :
    (kernel_end : ℕ) (map : List MmapEntry) (order : ℕ)
    → 0 < order
    → let p = pmm_init kernel_end map in pmm_alloc_pages p order ≡ (0, p)
init_refuses_blocks kernel_end map order pos =
    let p = pmm_init kernel_end map in
    refused p order (no_block p order (pmm_init-HasSinglePages kernel_end map) pos)
