-- ===== src/Vmm/Tests.antt =====
-- The theorems on page tables at four tables.
use purevisor.Base.{
  ◌∷◌, ℕ, ◌+◌, ◌%◌, ◌≡◌, inr, refl, true, false, [], some, arith, if◌then◌else◌, ◌==◌,
}
use purevisor.Vmm.Ept.{Ept, page_of, ept_map_page, ept_get_host_phys, ept_walk}
use purevisor.Vmm.Ept.Translate.{IsPath, map_page-translates}
use mathlib.Core.Bool.{false≢true}
use purevisor.Vmm.Ept.Tree.{IsTree}
use purevisor.Vmm.Ept.Walk.{walk-Keeps}
use purevisor.Vmm.Ept.Large.{IsLargePath, map_page_in_large}

-- Tables at 4096, 8192, 12288 and 16384, each with its first entry set; `last` is that of the third.
abbrev four_tables : ℕ → Ept
four_tables last = record {
  tables = λ t i.
      if t == 4096
      then 8192 + 7
      else if t == 8192
      then 12288 + 7
      else if t == 12288
      then last
      else 0;
  pml4 = 4096;
  eptp = 4096 + 30;
  mapped_pages = 0;
  supply = [];
}

abbrev four_levels : Ept
four_levels = four_tables (16384 + 7)

first-IsPath : IsPath four_levels 5000 8192 12288 16384
first-IsPath = record {
  in_pml4 = refl;
  to_pdpt = refl;
  small_pdpt = refl;
  in_pdpt = refl;
  to_pd = refl;
  small_pd = refl;
  in_pd = refl;
  to_pt = refl;
}

second-IsPath : IsPath four_levels 9000 8192 12288 16384
second-IsPath = record {
  in_pml4 = refl;
  to_pdpt = refl;
  small_pdpt = refl;
  in_pdpt = refl;
  to_pd = refl;
  small_pd = refl;
  in_pd = refl;
  to_pt = refl;
}

map_page-translates_example :
    ((ept_map_page four_levels 5000 40960 7 6).0 ≡ true)
    × (ept_get_host_phys (ept_map_page four_levels 5000 40960 7 6).1 5001
        ≡ page_of 40960 + 5001 % 4096)
    × (ept_get_host_phys (ept_map_page four_levels 5000 40960 7 6).1 9000
        ≡ ept_get_host_phys four_levels 9000)
map_page-translates_example =
    map_page-translates four_levels 5000 40960 7 6 5001 8192 12288 16384 9000 8192 12288 16384
      first-IsPath (λ e. absurd (omega (arith, e))) (λ e. absurd (omega (arith, e)))
      (λ e. absurd (omega (arith, e))) refl (omega arith) (omega arith) (omega arith) refl
      second-IsPath (λ e. absurd (omega (arith, e))) (λ e. absurd (omega (arith, e)))
      (inr (λ e. absurd (omega (arith, e))))

-- The third table maps 2 MB.
abbrev large_levels : Ept
large_levels = four_tables (2097152 + 128 + 7)

large-IsLargePath : IsLargePath large_levels 5000 8192 12288
large-IsLargePath = record {
  in_pml4 = refl;
  to_pdpt = refl;
  small_pdpt = refl;
  in_pdpt = refl;
  to_pd = refl;
  large = refl;
}

map_page_in_large_example :
    ((ept_map_page large_levels 5000 40960 7 6).0 ≡ true)
    × ((ept_walk (ept_map_page large_levels 5000 40960 7 6).1 5000 false).0
        ≡ some (record { table = 40960; index = 1; level = 1 }))
map_page_in_large_example =
    map_page_in_large large_levels 5000 40960 7 6 8192 12288 large-IsLargePath
      (λ e. absurd (omega (arith, e))) (λ e. absurd (omega (arith, e))) refl (omega arith)
      (omega arith) (omega arith)

-- Tables with nothing mapped, and three pages to spare.
abbrev no_tables : Ept
no_tables = record {
  tables = λ t i. 0;
  pml4 = 4096;
  eptp = 4096 + 30;
  mapped_pages = 0;
  supply = 8192 ∷ 12288 ∷ 16384 ∷ [];
}

abbrev only_root : ℕ → ℕ
only_root t = if t == 4096 then 4 else 0

no_tables-IsTree : IsTree no_tables only_root
no_tables-IsTree = record {
  root = refl;
  links = λ k t i a b p. absurd (false≢true p);
  spare = ((refl, refl, omega arith), ((refl, refl, omega arith), ((refl, refl, omega arith), tt)));
  distinct = (
    ((λ q. absurd (omega (arith, q))), ((λ q. absurd (omega (arith, q))), tt)),
    (((λ q. absurd (omega (arith, q))), tt), (tt, tt)),
  );
}

walk-Keeps_example :
    (height' : ℕ → ℕ) × IsTree (ept_walk no_tables 5000 true).1 height'
    × (ept_get_host_phys (ept_walk no_tables 5000 true).1 9000 ≡ ept_get_host_phys no_tables 9000)
walk-Keeps_example = walk-Keeps no_tables only_root 5000 9000 no_tables-IsTree
