-- ===== src/Paging/Tests.antt =====
-- A run of map_pages(), and its theorem at a concrete range.
use limine_eucleia.Prelude.{◌≡◌, refl, [], ◌∷◌, ok, Returns}
use limine_eucleia.Paging.Pages.{map_loop, map_pages}
use limine_eucleia.Paging.Tiled.{Tiles, map_pages-Tiles}

-- A large page as soon as the addresses allow it.
map_pages_run :
    map_pages 0x1f_f000 0x1f_f000 3 0x20_2000
    ≡ ok (
        record { virt = 0x1f_f000; phys = 0x1f_f000; flags = 3; size = 0x1000 }
        ∷ record { virt = 0x20_0000; phys = 0x20_0000; flags = 3; size = 0x20_0000 }
        ∷ record { virt = 0x40_0000; phys = 0x40_0000; flags = 3; size = 0x1000 }
        ∷ [])
unfolding map_pages map_loop
map_pages_run = refl

map_pages-Tiles_example :
    Returns (map_pages 0x1f_f000 0x1f_f000 3 0x20_2000) (Tiles 0x1f_f000 0x1f_f000 3 0 0x20_2000)
map_pages-Tiles_example = map_pages-Tiles 0x1f_f000 0x1f_f000 3 refl refl 0x20_2000 refl
