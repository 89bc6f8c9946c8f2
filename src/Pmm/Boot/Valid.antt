-- ===== src/Pmm/Boot/Valid.antt =====
-- The state of the allocator after the set-up at boot.
use muxomucota.Base.{
  ℕ, ◌+◌, ◌-◌, ◌%◌, ◌/◌, ◌*◌, ◌^◌, ◌≤◌, ◌≡◌, List, ltb, if◌then◌else◌, get_or_out, length, arith,
  refl, ◌∙◌, dec_lt,
}
use muxomucota.Pmm.{page_size}
use muxomucota.Pmm.Inv.{IsValid}
use muxomucota.Pmm.Boot.{Region, filled, free_usable, reserve_kernel, init_pmm}
use muxomucota.Pmm.Boot.Frames.{Sound, length-fill, length-filled, length-free_usable, init_pmm_lem}

length-reserve_kernel :
    (entries mem_base kernel last : ℕ) (bm : List ℕ)
    → length (reserve_kernel entries mem_base kernel last bm) ≡ length bm
unfolding reserve_kernel
length-reserve_kernel entries mem_base kernel last bm =
    let start = mem_base / page_size in
    let e = if ltb entries (last - start) then entries else last - start in
    let same = length-fill bm (kernel - start) 127 (e - (kernel - start)) in ground (arith, same)

length-bytes :
    (memsize entries mem_base kernel last : ℕ) (memmap : List Region)
    → length (
        reserve_kernel entries mem_base kernel last
          (free_usable memsize entries mem_base memmap (filled 255 entries)))
      ≡ entries
length-bytes memsize entries mem_base kernel last memmap =
    length-reserve_kernel entries mem_base kernel last
      (free_usable memsize entries mem_base memmap (filled 255 entries))
    ∙ length-free_usable memsize entries mem_base memmap (filled 255 entries)
    ∙ length-filled 255 entries

length-init_pmm :
    (kernel_paddr kernel_end : ℕ) (memmap : List Region)
    → length (init_pmm kernel_paddr kernel_end memmap).bitmap
      ≡ (init_pmm kernel_paddr kernel_end memmap).mem_entries
unfolding init_pmm
length-init_pmm kernel_paddr kernel_end memmap = length-bytes _ _ _ _ _ memmap

init_pmm_aligned :
    (kernel_paddr kernel_end : ℕ) (memmap : List Region)
    → ((init_pmm kernel_paddr kernel_end memmap).mem_base % page_size ≡ 0)
      × ((init_pmm kernel_paddr kernel_end memmap).look_from_here ≡ 0)
unfolding init_pmm
init_pmm_aligned kernel_paddr kernel_end memmap = (omega arith, refl)

-- The boot loader's memory map has no empty region and none that ends in the last page of the address
-- space. Where the frames that `init_pmm` counts lie within the address space, it establishes the
-- invariant of the allocator.
pub init_pmm-IsValid :
    (kernel_paddr kernel_end : ℕ) (memmap : List Region)
    → Sound memmap
    → (init_pmm kernel_paddr kernel_end memmap).mem_base
        + (init_pmm kernel_paddr kernel_end memmap).mem_entries * page_size
      ≤ 2 ^ 32
    → IsValid (init_pmm kernel_paddr kernel_end memmap)
init_pmm-IsValid kernel_paddr kernel_end memmap s room =
    let t = init_pmm kernel_paddr kernel_end memmap in
    let (aligned, start) = init_pmm_aligned kernel_paddr kernel_end memmap in
    record {
      size = length-init_pmm kernel_paddr kernel_end memmap;
      bytes = λ k. elim (dec_lt k t.mem_entries) [
        | yes l ↦ ground (arith, init_pmm_lem kernel_paddr kernel_end memmap k s l)
        | no g ↦ omega (
          arith,
          get_or_out t.bitmap k 0 (omega (arith, length-init_pmm kernel_paddr kernel_end memmap)),
        )
      ];
      hint_in = omega (arith, start);
      hint = λ k h. absurd (omega (arith, start));
      base_aligned = aligned;
      in_memory = room;
    }
