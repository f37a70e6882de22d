-- ===== src/Memory/Tests.antt =====
-- The theorems on the page allocator at sixteen pages: a free block of eight, and a free page.
use purevisor.Base.{
  ◌≡◌, ◌⊎◌, ◌^◌, refl, true, false, List, [], ◌∷◌, arith, add64, if◌then◌else◌, ◌==◌,
}
use purevisor.Memory.Pmm.{
  Pmm, Zone, free, in_use, is_free, get_zone, pmm_alloc_pages, pmm_free_pages,
}
use purevisor.Memory.Pmm.Accounts.{pages, SameElsewhere}
use purevisor.Memory.Pmm.Init.{MmapEntry, pmm_init, init_refuses_blocks}
use purevisor.Memory.Pmm.Allocation.{Ends, alloc_pages-Ends}
use purevisor.Memory.Pmm.Freeing.{free_pages_lem, merged_page_unmarked}

abbrev empty_zone : Zone
empty_zone = record { list = λ o. []; count = λ o. 0; free_pages = 0 }

-- Pages 8 to 15 are a free block and page 4 is free; page 5, its buddy, is in use.
abbrev small_pmm : Pmm
small_pmm = record {
  page = λ n.
      if n == 4
      then record { flags = free; order = 0; refcount = 0 }
      else if n == 8
      then record { flags = free; order = 3; refcount = 0 }
      else record { flags = in_use; order = 0; refcount = 1 };
  page_count = 16;
  zone = λ z.
      if z == 0
      then record {
        list = λ o. if o == 0 then 4 ∷ [] else if o == 3 then 8 ∷ [] else [];
        count = λ o. if o == 0 then 1 else if o == 3 then 1 else 0;
        free_pages = 9;
      }
      else empty_zone;
  free_memory = 36864;
  used_memory = 28672;
  alloc_count = 7;
  free_count = 0;
}

alloc_pages-Ends_example : Ends small_pmm 1 (pmm_alloc_pages small_pmm 1)
alloc_pages-Ends_example = alloc_pages-Ends small_pmm 1 (omega arith) (omega arith)

free_pages_lem_example :
    let q = pmm_free_pages small_pmm 20480 0 in
    ((is_free (small_pmm.page 5).flags ≡ true) × (q ≡ small_pmm))
    ⊎ ((is_free (small_pmm.page 5).flags ≡ false)
        × (pages q (get_zone 20480) ≡ add64 9 (2 ^ 0))
        × SameElsewhere small_pmm q (get_zone 20480))
free_pages_lem_example =
    free_pages_lem small_pmm 20480 0 (omega arith) (omega arith) (omega arith) (omega arith)

merged_page_unmarked_example : is_free ((pmm_free_pages small_pmm 20480 0).page 5).flags ≡ false
merged_page_unmarked_example =
    merged_page_unmarked small_pmm 20480 (omega arith) (omega arith) refl refl refl

-- One megabyte of reserved memory, and fifteen that are available.
abbrev small_map : List MmapEntry
small_map =
    record { addr = 0; len = 1048576; type = 2 }
    ∷ record { addr = 1048576; len = 15728640; type = 1 }
    ∷ []

init_refuses_blocks_example :
    pmm_alloc_pages (pmm_init 2097152 small_map) 4 ≡ (0, pmm_init 2097152 small_map)
init_refuses_blocks_example = init_refuses_blocks 2097152 small_map 4 (omega arith)
