-- ===== src/Shm/Tests.antt =====
-- Shared memory of one page that is opened and left at a concrete address space.
use muxomucota.Base.{
  ℕ, zero, suc, ◌+◌, ◌≤◌, ◌<◌, ◌≡◌, ◌≢◌, true, false, [], ◌∷◌, some, ◌==◌, if◌then◌else◌, arith,
  refl,
}
use muxomucota.Base.Outcome.{ok}
use muxomucota.Pmm.{Pmm, users}
use muxomucota.Pmm.Inv.{byte, IsValid, get_or-lt}
use muxomucota.Paging.{not_present, mapped, Vm, set_entry}
use muxomucota.Paging.Space.{user_map_sg}
use muxomucota.Shm.{Shm, map_shm, open_shm, unmake_shm}
use muxomucota.Shm.Break.{read_write}
use muxomucota.Shm.Users.{occurrences, unmake_shm-open_shm}

-- Memory from 1 MB on: the kernel's frame, a table, and the frame of the shared memory.
abbrev memory : Pmm
memory = record {
  mem_base = 0x100000;
  mem_entries = 3;
  bitmap = 127 ∷ 1 ∷ 1 ∷ [];
  look_from_here = 1;
}

below_hint : (i : ℕ) → i < 1 → byte memory i ≢ 0
below_hint zero h = omega arith
below_hint (suc i) h = absurd (omega arith)

memory-IsValid : IsValid memory
memory-IsValid = record {
  size = refl;
  bytes = get_or-lt memory.bitmap 256 (omega arith) (omega arith);
  hint_in = omega arith;
  hint = below_hint;
  base_aligned = refl;
  in_memory = omega arith;
}

-- The table for mappings is there, and empty.
abbrev space : Vm
space = record {
  pmm = memory;
  pd = λ d. if d == 768 then mapped 0x101000 true else not_present;
  tables = λ t i. not_present;
  bytes = λ f i. 0;
  heap_end = 0x400000;
}

abbrev piece : Shm
piece = record { size = 4096; users = 1; offset = 16; kept_alive = false; phys = 0x102000 ∷ [] }

abbrev with_piece : Vm
with_piece = record space { tables = set_entry space.tables 0x101000 0 (mapped 0x102000 true) }

map_shm-run : map_shm read_write piece space ≡ ok (0xc0000010, with_piece)
unfolding map_shm user_map_sg
map_shm-run = refl

room : (k : ℕ) → users (byte memory k) + occurrences memory k (0x102000 ∷ []) ≤ 127
room zero = omega arith
room (suc zero) = omega arith
room (suc (suc zero)) = omega arith
room (suc (suc (suc k))) = ground arith

unmake_shm-open_shm_example :
    (sg' : Shm) × (vm₂ vm₃ : Vm) × (open_shm read_write piece space ≡ ok (0xc0000010, sg', vm₂))
    × ((k : ℕ) → byte vm₂.pmm k ≡ byte memory k + occurrences memory k (0x102000 ∷ []))
    × (unmake_shm true sg' vm₂ ≡ ok (some piece, vm₃))
    × ((k : ℕ) → byte vm₃.pmm k ≡ byte memory k)
    × IsValid vm₃.pmm
unmake_shm-open_shm_example =
    unmake_shm-open_shm read_write true piece space with_piece 0xc0000010 (omega arith) refl
      map_shm-run (omega arith) memory-IsValid ((refl, omega arith, omega arith), tt) room
