-- ===== src/Pmm/Share.antt =====
-- Users and the copy-on-write flag of a page frame: `pmm_use`, `pmm_free`, `pmm_mark_cow`.
use muxomucota.Base.{
  ℕ, ◌+◌, ◌-◌, ◌%◌, ◌<◌, ◌≡◌, ◌≢◌, Bool, ◌&&◌, set, length, arith, if◌then◌else◌, ◌==◌, ltb, dec_lt,
}
use muxomucota.Base.Outcome.{Outcome, ok, ◌>>=◌, ◌>>◌, kassert}
use muxomucota.Pmm.{
  Pmm, page_size, cow_flag, users, aligned, frame_index, entry, free, pmm_use, mark_cow, is_cow,
  user_count, cow,
}
use muxomucota.Pmm.Inv.{byte, entry-eq-ok, entry-eq-fault}

-- What the functions of an address check first.
pub record Names (s : Pmm) (paddr b : ℕ) : Type 0 where
  pub on_boundary : paddr % page_size ≡ 0
  pub managed : frame_index s paddr < length s.bitmap
  pub value : byte s (frame_index s paddr) ≡ b

-- An address at which the assertions hold.
pub checked :
    {A : Type 0} (s : Pmm) (paddr : ℕ) (f : ℕ → Outcome A) {r : A}
    → (kassert (aligned paddr) >> (entry s.bitmap (frame_index s paddr) >>= f)) ≡ ok r
    → (b : ℕ) × Names s paddr b × (f b ≡ ok r)
checked s paddr f h = elim (dec_lt (frame_index s paddr) (length s.bitmap)) [
  | yes p ↦ (
    byte s (frame_index s paddr),
    ground (arith, entry-eq-ok s.bitmap (frame_index s paddr) p),
    ground (arith, entry-eq-ok s.bitmap (frame_index s paddr) p),
  )
  | no p ↦ absurd (ground (arith, entry-eq-fault s.bitmap (frame_index s paddr) (omega arith)))
]

pub named :
    {A : Type 0} (s : Pmm) (paddr b : ℕ) (f : ℕ → Outcome A)
    → Names s paddr b
    → (kassert (aligned paddr) >> (entry s.bitmap (frame_index s paddr) >>= f)) ≡ f b
named s paddr b f n = ground (arith, entry-eq-ok s.bitmap (frame_index s paddr) n.managed)

module _ (s : Pmm) (paddr : ℕ) where
  -- The state after `pmm_free` of a frame with the byte `b`.
  abbrev pub freed : ℕ → Pmm
  freed b = record s {
    bitmap = set s.bitmap (frame_index s paddr) (b - 1);
    look_from_here =
        if b - 1 == 0 && ltb (frame_index s paddr) s.look_from_here
        then frame_index s paddr
        else s.look_from_here;
  }

  pub free_named : (b : ℕ) → Names s paddr b → users b ≢ 0 → free paddr s ≡ ok (freed b)
  unfolding free
  free_named b n u = ground (arith, entry-eq-ok s.bitmap (frame_index s paddr) n.managed)

  pub free-eq-ok :
      {s' : Pmm} → free paddr s ≡ ok s' → (b : ℕ) × Names s paddr b × (users b ≢ 0) × (freed b ≡ s')
  unfolding free
  free-eq-ok h = let (b, n, e) = checked s paddr _ h in (b, n, ground arith, ground arith)

  pub use-eq-ok :
      {s' : Pmm}
      → pmm_use paddr s ≡ ok s'
      → (b : ℕ) × Names s paddr b
        × (users b ≢ 0)
        × (users b < 127)
        × (record s { bitmap = set s.bitmap (frame_index s paddr) (b + 1) } ≡ s')
  unfolding pmm_use
  use-eq-ok h =
      let (b, n, e) = checked s paddr _ h in (b, n, ground arith, ground arith, ground arith)

  pub mark_cow-eq-ok :
      (flag : Bool) {s' : Pmm}
      → mark_cow paddr flag s ≡ ok s'
      → (b : ℕ) × Names s paddr b
        × (users b ≢ 0)
        × (record s {
          bitmap =
              set s.bitmap (frame_index s paddr) (if flag then users b + cow_flag else users b);
        }
            ≡ s')
  unfolding mark_cow
  mark_cow-eq-ok flag h = let (b, n, e) = checked s paddr _ h in (b, n, ground arith, ground arith)

module _ (s : Pmm) (paddr : ℕ) where
  pub is_cow_named : (b : ℕ) → Names s paddr b → users b ≢ 0 → is_cow paddr s ≡ ok (cow b)
  unfolding is_cow
  is_cow_named b n u = ground (arith, entry-eq-ok s.bitmap (frame_index s paddr) n.managed)

  pub user_count_named : (b : ℕ) → Names s paddr b → user_count paddr s ≡ ok (users b)
  unfolding user_count
  user_count_named b n = ground (arith, entry-eq-ok s.bitmap (frame_index s paddr) n.managed)

  pub mark_cow_named :
      (flag : Bool) (b : ℕ)
      → Names s paddr b
      → users b ≢ 0
      → mark_cow paddr flag s
        ≡ ok (record s {
          bitmap =
              set s.bitmap (frame_index s paddr) (if flag then users b + cow_flag else users b);
        })
  unfolding mark_cow
  mark_cow_named flag b n u = ground (arith, entry-eq-ok s.bitmap (frame_index s paddr) n.managed)

  pub use_named :
      (b : ℕ)
      → Names s paddr b
      → users b ≢ 0
      → users b < 127
      → pmm_use paddr s ≡ ok (record s { bitmap = set s.bitmap (frame_index s paddr) (b + 1) })
  unfolding pmm_use
  use_named b n u l = ground (arith, entry-eq-ok s.bitmap (frame_index s paddr) n.managed)
