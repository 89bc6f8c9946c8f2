-- ===== src/Paging/Tests.antt =====
-- Page faults, copies of tables and mappings at concrete address spaces.
use muxomucota.Base.{
  ℕ, zero, suc, ◌+◌, ◌%◌, ◌≤◌, ◌<◌, ◌≡◌, ◌≢◌, true, false, List, [], ◌∷◌, ◌==◌, if◌then◌else◌,
  arith, refl,
}
use muxomucota.Base.Outcome.{ok}
use muxomucota.Pmm.{Pmm, page_size, alloc, frame_index, users}
use muxomucota.Pmm.Inv.{byte, IsValid, get_or-lt}
use muxomucota.Pmm.Share.{Names}
use muxomucota.Paging.{Entry, pdi, not_present, reserved, mapped, Vm, pti, handle_pagefault}
use muxomucota.Paging.Clone.{clone_pages, clone_table}
use muxomucota.Paging.Clone.Table.{clone_table-seen}
use muxomucota.Paging.Clone.Shared.{Cloned, clone_pages-Cloned}
use muxomucota.Paging.Clone.Step.{shares}
use muxomucota.Paging.Fault.{Copied, handle_pagefault-Copied}
use muxomucota.Paging.Seen.{seen, Backed, handle_pagefault-seen}

-- Memory from 1 MB on: the kernel's frame, a table, a free frame, a page with the given byte, and a
-- free frame.
abbrev memory : ℕ → Pmm
memory b = record {
  mem_base = 0x100000;
  mem_entries = 5;
  bitmap = 127 ∷ 1 ∷ 0 ∷ b ∷ 0 ∷ [];
  look_from_here = 1;
}

below_hint : (b i : ℕ) → i < 1 → byte (memory b) i ≢ 0
below_hint b zero h = omega arith
below_hint b (suc i) h = absurd (omega arith)

memory-IsValid : (b : ℕ) → b < 256 → IsValid (memory b)
memory-IsValid b h = record {
  size = refl;
  bytes = get_or-lt (memory b).bitmap 256 (omega arith) (omega arith);
  hint_in = omega arith;
  hint = below_hint b;
  base_aligned = refl;
  in_memory = omega arith;
}

-- The page at 0x400000 may not be written to, and the one at 0x401000 is reserved, as is the table
-- of 0x800000. The first table for mappings is that of 0x400000.
abbrev space : ℕ → Vm
space b = record {
  pmm = memory b;
  pd = λ d.
      if d == 1
      then mapped 0x101000 true
      else if d == 768
      then mapped 0x101000 true
      else if d == 2
      then reserved true
      else not_present;
  tables = λ t i.
      if i == 0 then mapped 0x103000 false else if i == 1 then reserved true else not_present;
  bytes = λ f i. f + i;
  heap_end = 0x400000;
}

shared_page : Names (memory 130) 0x103000 130
shared_page = record { on_boundary = refl; managed = omega arith; value = refl }

last_page : Names (memory 129) 0x103000 129
last_page = record { on_boundary = refl; managed = omega arith; value = refl }

abbrev after_alloc : ℕ → List ℕ → Pmm
after_alloc n bm = record (memory 130) { bitmap = bm; look_from_here = n }

alloc_first : alloc [] (memory 130) ≡ ok (0x102000, after_alloc 2 (127 ∷ 1 ∷ 1 ∷ 130 ∷ 0 ∷ []))
unfolding alloc
alloc_first = refl

alloc_second :
    alloc [] (after_alloc 2 (127 ∷ 1 ∷ 1 ∷ 130 ∷ 0 ∷ []))
    ≡ ok (0x104000, after_alloc 4 (127 ∷ 1 ∷ 1 ∷ 130 ∷ 1 ∷ []))
unfolding alloc
alloc_second = refl

handle_pagefault-Copied_example :
    (vm' : Vm) × (handle_pagefault true 0x400000 (space 130) ≡ ok (true, vm'))
    × Copied 0x400000 0x103000 0x102000 (space 130) vm'
handle_pagefault-Copied_example =
    handle_pagefault-Copied (space 130) 0x400000 130 0x102000 (memory-IsValid 130 (omega arith))
      refl refl refl shared_page (omega arith) (omega arith) alloc_first

first_table :
    (i : ℕ)
    → ((space 130).tables 0x101000 i).present ≡ true
    → byte (memory 130) (frame_index (memory 130) ((space 130).tables 0x101000 i).frame) ≢ 0
first_table zero h = omega arith
first_table (suc zero) h = absurd (ground arith)
first_table (suc (suc i)) h = absurd (ground arith)

space-Backed : Backed (space 130).pd (space 130)
space-Backed a there present = first_table (pti a) present

handle_pagefault-seen_example :
    (vm' : Vm) × (handle_pagefault true 0x400000 (space 130) ≡ ok (true, vm'))
    × ((a : ℕ) → seen (space 130).pd vm' a ≡ seen (space 130).pd (space 130) a)
handle_pagefault-seen_example =
    handle_pagefault-seen (space 130) (space 130).pd 0x400000 130 0x102000
      (memory-IsValid 130 (omega arith)) refl refl refl shared_page (omega arith) (omega arith)
      alloc_first space-Backed

room :
    (k : ℕ)
    → users (byte (memory 130) k) + shares (memory 130) k 2 0 ((space 130).tables 0x101000) ≤ 127
room zero = omega arith
room (suc zero) = omega arith
room (suc (suc zero)) = omega arith
room (suc (suc (suc zero))) = omega arith
room (suc (suc (suc (suc zero)))) = omega arith
room (suc (suc (suc (suc (suc k))))) = ground arith

used :
    (j : ℕ)
    → 0 ≤ j
    → j < 2
    → ((space 130).tables 0x101000 j).present ≡ true
    → (((space 130).tables 0x101000 j).frame % page_size ≡ 0)
      × (frame_index (memory 130) ((space 130).tables 0x101000 j).frame < 5)
      × (users (byte (memory 130) (frame_index (memory 130) ((space 130).tables 0x101000 j).frame))
          ≢ 0)
used zero lo hi h = (refl, omega arith, omega arith)
used (suc zero) lo hi h = cc
used (suc (suc j)) lo hi h = absurd (omega arith)

clone_pages-Cloned_example :
    (vm' : Vm) × (clone_pages 2 0 0x101000 0x102000 (space 130) ≡ ok vm')
    × Cloned 2 0 0x101000 0x102000 (space 130) vm'
clone_pages-Cloned_example =
    clone_pages-Cloned 2 0 0x101000 0x102000 (space 130) (omega arith)
      (memory-IsValid 130 (omega arith)) (record { named = used; room = room })

abbrev with_table : Pmm
with_table = after_alloc 2 (127 ∷ 1 ∷ 1 ∷ 130 ∷ 0 ∷ [])

room_table :
    (k : ℕ)
    → users (byte with_table k) + shares with_table k 1024 0 ((space 130).tables 0x101000) ≤ 127
room_table zero = omega arith
room_table (suc zero) = omega arith
room_table (suc (suc zero)) = omega arith
room_table (suc (suc (suc zero))) = omega arith
room_table (suc (suc (suc (suc zero)))) = omega arith
room_table (suc (suc (suc (suc (suc k))))) = ground arith

used_table :
    (j : ℕ)
    → 0 ≤ j
    → j < 1024
    → ((space 130).tables 0x101000 j).present ≡ true
    → (((space 130).tables 0x101000 j).frame % page_size ≡ 0)
      × (frame_index with_table ((space 130).tables 0x101000 j).frame < 5)
      × (users (byte with_table (frame_index with_table ((space 130).tables 0x101000 j).frame)) ≢ 0)
used_table zero lo hi h = (refl, omega arith, omega arith)
used_table (suc zero) lo hi h = absurd (ground arith)
used_table (suc (suc j)) lo hi h = absurd (ground arith)

abbrev empty : ℕ → Entry
empty d = not_present

clone_table-seen_example :
    (dest' : ℕ → Entry) × (vm' : Vm) × (clone_table 1 empty (space 130) ≡ ok (dest', vm'))
    × ((a : ℕ) → pdi a ≡ 1 → seen dest' vm' a ≡ seen (space 130).pd (space 130) a)
    × ((a : ℕ) → pdi a ≡ 1 → seen vm'.pd vm' a ≡ seen (space 130).pd (space 130) a)
    × ((j : ℕ) → j ≢ 1 → dest' j ≡ not_present)
clone_table-seen_example =
    clone_table-seen 1 0x102000 empty (space 130) (memory-IsValid 130 (omega arith)) refl
      (omega arith) alloc_first (record { named = used_table; room = room_table })
