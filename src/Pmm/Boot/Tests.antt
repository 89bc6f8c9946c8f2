-- ===== src/Pmm/Boot/Tests.antt =====
-- A computer with 32 MB of memory from 1 MB on, at whose beginning the kernel lies.
use muxomucota.Base.{◌≡◌, true, false, [], ◌∷◌, List, arith, refl}
use muxomucota.Pmm.Inv.{IsValid, byte}
use muxomucota.Pmm.Boot.{Region, survey_memory, init_pmm}
use muxomucota.Pmm.Boot.Frames.{Sound, init_pmm_lem}
use muxomucota.Pmm.Boot.Valid.{init_pmm-IsValid}

-- The last page of the second region is shared with one that is not usable.
abbrev memmap : List Region
memmap =
    record { usable = true; base = 0x100000; size = 0x3000 }
    ∷ record { usable = true; base = 0x103000; size = 0x2800 }
    ∷ record { usable = false; base = 0x105800; size = 0x2800 }
    ∷ []

memmap-Sound : Sound memmap
memmap-Sound =
    ((omega arith, omega arith), ((omega arith, omega arith), ((omega arith, omega arith), tt)))

layout :
    ((init_pmm 0x100000 0x100800 memmap).mem_base ≡ 0x101000)
    × ((init_pmm 0x100000 0x100800 memmap).mem_entries ≡ 5)
unfolding init_pmm
layout = (refl, refl)

-- The frame that is only partly usable is free.
init_pmm_lem_example : byte (init_pmm 0x100000 0x100800 memmap) 4 ≡ 0
unfolding init_pmm survey_memory
init_pmm_lem_example =
    init_pmm_lem 0x100000 0x100800 memmap 4 memmap-Sound (omega (arith, layout.1))

init_pmm-IsValid_example : IsValid (init_pmm 0x100000 0x100800 memmap)
init_pmm-IsValid_example =
    init_pmm-IsValid 0x100000 0x100800 memmap memmap-Sound (omega (arith, layout.0, layout.1))
