-- ===== src/Pmm/Inv.antt =====
-- What the allocator of page frames keeps true of its state.
use muxomucota.Base.{
  ℕ, zero, suc, All, [], ◌∷◌, ◌+◌, ◌*◌, ◌%◌, ◌^◌, ◌≤◌, ◌<◌, ◌≡◌, ◌≢◌, List, get_or, set, get_or-set,
  length, length-set, arith, if◌then◌else◌, ◌==◌, get_elem?_out, get_elem?-eq-get_or, dec_lt,
}
use muxomucota.Base.Outcome.{ok, fault}
use muxomucota.Pmm.{Pmm, page_size, frame_index, frame_addr, entry}

-- The users of the frame `i`, and its flag, as one byte; a frame is free if that is zero.
abbrev pub byte : Pmm → ℕ → ℕ
byte s i = get_or s.bitmap i 0

pub record IsValid (s : Pmm) : Type 0 where
  pub size : length s.bitmap ≡ s.mem_entries
  pub bytes : (i : ℕ) → byte s i < 256
  pub hint_in : s.look_from_here ≤ s.mem_entries
  pub hint : (i : ℕ) → i < s.look_from_here → byte s i ≢ 0
  pub base_aligned : s.mem_base % page_size ≡ 0
  pub in_memory : s.mem_base + s.mem_entries * page_size ≤ 2 ^ 32

-- The frames that the allocator manages have aligned addresses, which name them.
pub frame_index-frame_addr :
    {s : Pmm}
    → IsValid s
    → (i : ℕ) → i < s.mem_entries
    → (frame_index s (frame_addr s i) ≡ i)
      × (frame_addr s i % page_size ≡ 0)
      × (frame_addr s i ≡ s.mem_base + i * page_size)
frame_index-frame_addr v i h = omega arith

pub entry-eq-ok : (bm : List ℕ) (i : ℕ) → i < length bm → entry bm i ≡ ok (get_or bm i 0)
entry-eq-ok bm i h = ground (arith, get_elem?-eq-get_or bm i 0)

pub entry-eq-fault : (bm : List ℕ) (i : ℕ) → length bm ≤ i → entry bm i ≡ fault
entry-eq-fault bm i h = ground (arith, get_elem?_out bm i)

-- A state with the byte `i` changed, and a hint that no free frame lies below, is valid.
pub IsValid-set :
    {s : Pmm}
    → IsValid s
    → (i b look : ℕ) → i < s.mem_entries
    → b < 256
    → look ≤ s.mem_entries
    → ((j : ℕ) → j < look → (if i == j then b else byte s j) ≢ 0)
    → IsValid (record s { bitmap = set s.bitmap i b; look_from_here = look })
IsValid-set {s} v i b look hi hb hin hl = record {
  hint_in = hin;
  size = omega (arith, length-set s.bitmap i b, v.size);
  bytes = λ j. ground (arith, get_or-set s.bitmap i j b 0, v.bytes j, v.size);
  hint = λ j hj. ground (arith, get_or-set s.bitmap i j b 0, hl j, v.size);
  base_aligned = v.base_aligned;
  in_memory = v.in_memory;
}

-- A read that succeeds gives the byte of a frame that there is.
pub entry-inv :
    (bm : List ℕ) (i : ℕ) {b : ℕ} → entry bm i ≡ ok b → (i < length bm) × (get_or bm i 0 ≡ b)
entry-inv bm i h = elim (dec_lt i (length bm)) [
  | yes p ↦ (p, ground (arith, entry-eq-ok bm i p))
  | no p ↦ absurd (ground (arith, entry-eq-fault bm i (omega arith)))
]

pub get_or-lt : (bm : List ℕ) (n : ℕ) → 0 < n → All (λ b. b < n) bm → (i : ℕ) → get_or bm i 0 < n
get_or-lt [] n pos a i = pos
get_or-lt (b ∷ bm) n pos a zero = a.0
get_or-lt (b ∷ bm) n pos a (suc i) = get_or-lt bm n pos a.1 i
