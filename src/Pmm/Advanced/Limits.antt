-- ===== src/Pmm/Advanced/Limits.antt =====
-- Where `pmm_alloc_advanced` goes beyond its limits: the bound on the address, and the end of the
-- array of bytes.
use muxomucota.Base.{ℕ, suc, ◌+◌, ◌-◌, ◌*◌, ◌/◌, ◌%◌, ◌^◌, ◌≤◌, ◌<◌, ◌≡◌, [], set, arith}
use muxomucota.Base.Outcome.{ok, fault}
use muxomucota.Pmm.{Pmm, page_size, frame_addr}
use muxomucota.Pmm.Inv.{byte, IsValid, entry-eq-ok, entry-eq-fault}
use muxomucota.Pmm.Advanced.{alloc_advanced, end_index}

-- A request for one page, with the first frame of memory free, gets that frame as soon as the bound
-- `max_addr` is at least two pages, however far the memory begins above the bound: the code counts
-- the bound from 0 and its index from `mem_base`.
pub alloc_advanced_above_max :
    {s : Pmm} (max_addr alignment : ℕ)
    → IsValid s
    → s.look_from_here ≡ 0
    → 0 < s.mem_entries
    → byte s 0 ≡ 0
    → s.mem_base % 2 ^ alignment ≡ 0
    → 2 * page_size ≤ max_addr
    → max_addr < s.mem_base
    → alloc_advanced [] page_size max_addr alignment s
      ≡ ok (s.mem_base, record s { bitmap = set s.bitmap 0 1 })
unfolding alloc_advanced
alloc_advanced_above_max {s} max_addr alignment v look some_frame free unit two above =
    let e : end_index max_addr 1 s - s.look_from_here ≡ suc (end_index max_addr 1 s - 1) =
      ground arith in
    rw (e, look) (ground (arith, entry-eq-ok s.bitmap 0, v.size, v.in_memory))

-- A request for two pages, with the bound beyond the end of memory and only the last frame left to
-- look at, which is free, reads the array of bytes past its end.
pub alloc_advanced_overrun :
    {s : Pmm} (max_addr alignment : ℕ)
    → IsValid s
    → s.look_from_here + 1 ≡ s.mem_entries
    → byte s s.look_from_here ≡ 0
    → frame_addr s s.look_from_here % 2 ^ alignment ≡ 0
    → s.mem_entries + 2 ≤ max_addr / page_size
    → alloc_advanced [] (2 * page_size) max_addr alignment s ≡ fault
unfolding alloc_advanced
alloc_advanced_overrun {s} max_addr alignment v last free unit far =
    let e : end_index max_addr 2 s - s.look_from_here ≡ suc 0 = ground arith in
    rw e (
      ground (
        arith,
        entry-eq-ok s.bitmap s.look_from_here,
        entry-eq-fault s.bitmap (suc s.look_from_here),
        v.size,
      ))
