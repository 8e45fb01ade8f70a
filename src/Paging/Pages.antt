-- ===== src/Paging/Pages.antt =====
-- map_pages() of common/mm/vmm.c, as an x86 build has it, down to its calls of map_page().
use limine_eucleia.Prelude.{
  ℕ, zero, suc, ◌+◌, ◌-◌, ◌%◌, ◌/◌, Bool, not, ◌&&◌, ◌||◌, List, [], ◌∷◌, leb, ◌==◌, if◌then◌else◌,
  Result, ok, panic, out_of_fuel, ◌>>=◌,
}
use limine_eucleia.Word.{add64}

-- The arguments of a call of map_page(); the size in bytes stands for the `enum page_size`.
pub record Page : Type 0 where
  pub virt : ℕ
  pub phys : ℕ
  pub flags : ℕ
  pub size : ℕ

-- LARGE_PAGE_PHYS_OK().
abbrev pub large_page_phys_ok : ℕ → Bool
large_page_phys_ok phys = not (phys == 0)

abbrev pub large_fits : (size virt phys left : ℕ) → Bool
large_fits size virt phys left =
    large_page_phys_ok phys && phys % size == 0 && virt % size == 0 && leb size left

abbrev pub page_size_for : (virt phys left : ℕ) → ℕ
page_size_for virt phys left =
    if large_fits 0x4000_0000 virt phys left
    then 0x4000_0000
    else if large_fits 0x20_0000 virt phys left
    then 0x20_0000
    else 0x1000

module _ (virt phys flags : ℕ) where
  abbrev pub Mapping : Type 0
  Mapping = (i left : ℕ) → Result (List Page)

  abbrev pub page_at : (i size : ℕ) → Page
  page_at i size = record { virt = add64 virt i; phys = add64 phys i; flags = flags; size = size }

  -- One turn of the loop; `left` is `count - i`.
  abbrev pub map_next : Mapping → Mapping
  map_next again i left =
      let size = page_size_for (add64 virt i) (add64 phys i) left in
      again (i + size) (left - size) >>= λ pages. ok (page_at i size ∷ pages)

  unfoldable pub map_loop : (fuel : ℕ) → Mapping
  map_loop zero i left = if left == 0 then ok [] else out_of_fuel
  map_loop (suc fuel) i left = if left == 0 then ok [] else map_next (map_loop fuel) i left

  unfoldable pub map_pages : (count : ℕ) → Result (List Page)
  map_pages count =
      if not (virt % 0x1000 == 0) || not (phys % 0x1000 == 0) || not (count % 0x1000 == 0)
      then panic
      else map_loop (count / 0x1000) 0 count
