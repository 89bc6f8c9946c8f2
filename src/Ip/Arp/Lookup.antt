-- ===== src/Ip/Arp/Lookup.antt =====
-- The entry that `arp_lookup` replaces.
use muxomucota.Base.{
  ℕ, zero, suc, ◌+◌, ◌%◌, ◌^◌, ◌≤◌, ◌<◌, ◌≡◌, ◌≢◌, none, List, [], ◌∷◌, length, All, set, get_or,
  arith, refl, ◌==◌, ltb, Bool-cases, inl, inr, ◌⊎◌,
}
use muxomucota.Ip.Arp.{
  CacheEntry, Cache, int_ltb, find_entry, find_oldest, no_entry, tick, arp_lookup,
}

-- Which entry the second loop of `arp_lookup` chooses, behind `i` entries of which the one at
-- `oldest_i` was used at `oldest`.
pub data Chosen (oldest oldest_i i : ℕ) (es : List CacheEntry) (r : ℕ) : Type 0 where
  unused :
      (j : ℕ)
      → j < length es
      → r ≡ i + j
      → (get_or es j no_entry).ifc ≡ 0
      → Chosen oldest oldest_i i es r
  before :
      r ≡ oldest_i
      → ((k : ℕ)
          → k < length es
          → ((get_or es k no_entry).ifc ≢ 0) × (oldest ≤ (get_or es k no_entry).last_usage))
      → Chosen oldest oldest_i i es r
  among :
      (j : ℕ)
      → j < length es
      → r ≡ i + j
      → (get_or es j no_entry).last_usage < oldest
      → ((k : ℕ)
          → k < length es
          → ((get_or es k no_entry).ifc ≢ 0)
            × ((get_or es j no_entry).last_usage ≤ (get_or es k no_entry).last_usage))
      → Chosen oldest oldest_i i es r

-- The next entry is used, and was used later than the oldest one so far.
Chosen-younger :
    (oldest oldest_i i r : ℕ) (e : CacheEntry) (es : List CacheEntry)
    → e.ifc ≢ 0
    → oldest ≤ e.last_usage
    → Chosen oldest oldest_i (suc i) es r
    → Chosen oldest oldest_i i (e ∷ es) r
Chosen-younger oldest oldest_i i r e es nz le (unused j h s u) =
    unused (suc j) (omega arith) (omega arith) u
Chosen-younger oldest oldest_i i r e es nz le (before s all) = before s all'
  where
    all' :
        (k : ℕ)
        → k < suc (length es)
        → ((get_or (e ∷ es) k no_entry).ifc ≢ 0)
          × (oldest ≤ (get_or (e ∷ es) k no_entry).last_usage)
    all' zero h = (nz, le)
    all' (suc k) h = all k (omega arith)
Chosen-younger oldest oldest_i i r e es nz le (among j h s less all) =
    among (suc j) (omega arith) (omega arith) less all'
  where
    all' :
        (k : ℕ)
        → k < suc (length es)
        → ((get_or (e ∷ es) k no_entry).ifc ≢ 0)
          × ((get_or es j no_entry).last_usage ≤ (get_or (e ∷ es) k no_entry).last_usage)
    all' zero h = (nz, omega arith)
    all' (suc k) h = all k (omega arith)

-- The next entry is used, and is the oldest one so far.
Chosen-older :
    (oldest oldest_i i r : ℕ) (e : CacheEntry) (es : List CacheEntry)
    → e.ifc ≢ 0
    → e.last_usage < oldest
    → Chosen e.last_usage i (suc i) es r
    → Chosen oldest oldest_i i (e ∷ es) r
Chosen-older oldest oldest_i i r e es nz lt (unused j h s u) =
    unused (suc j) (omega arith) (omega arith) u
Chosen-older oldest oldest_i i r e es nz lt (before s all) =
    among 0 (omega arith) (omega arith) lt all'
  where
    all' :
        (k : ℕ)
        → k < suc (length es)
        → ((get_or (e ∷ es) k no_entry).ifc ≢ 0)
          × (e.last_usage ≤ (get_or (e ∷ es) k no_entry).last_usage)
    all' zero h = (nz, omega arith)
    all' (suc k) h = all k (omega arith)
Chosen-older oldest oldest_i i r e es nz lt (among j h s less all) =
    among (suc j) (omega arith) (omega arith) (omega arith) all'
  where
    all' :
        (k : ℕ)
        → k < suc (length es)
        → ((get_or (e ∷ es) k no_entry).ifc ≢ 0)
          × ((get_or es j no_entry).last_usage ≤ (get_or (e ∷ es) k no_entry).last_usage)
    all' zero h = (nz, omega arith)
    all' (suc k) h = all k (omega arith)

int_ltb_lem : (a b : ℕ) → a < 2 ^ 31 → b < 2 ^ 31 → int_ltb a b ≡ ltb a b
int_ltb_lem a b h k =
    let x : (a + 2 ^ 31) % 2 ^ 32 ≡ a + 2 ^ 31 = omega arith in
    let y : (b + 2 ^ 31) % 2 ^ 32 ≡ b + 2 ^ 31 = omega arith in rw (x, y) (ground arith)

pub find_oldest-Chosen :
    (oldest oldest_i i : ℕ) (es : List CacheEntry)
    → oldest < 2 ^ 31
    → All (λ e. e.last_usage < 2 ^ 31) es
    → Chosen oldest oldest_i i es (find_oldest oldest oldest_i i es)
unfolding find_oldest
find_oldest-Chosen oldest oldest_i i [] h a = before refl (λ k l. absurd (omega arith))
find_oldest-Chosen oldest oldest_i i (e ∷ es) h a = elim (Bool-cases (e.ifc == 0)) [
  | inl free ↦ rw free (unused 0 (omega arith) (omega arith) (ground arith))
  | inr used ↦
      let s = int_ltb_lem e.last_usage oldest a.0 h in
      let nz : e.ifc ≢ 0 = ground arith in
      elim (Bool-cases (ltb e.last_usage oldest)) [
        | inl older ↦
            rw (used, s, older)
              (Chosen-older oldest oldest_i i _ e es nz (ground arith)
                (find_oldest-Chosen e.last_usage i (suc i) es a.0 a.1))
        | inr younger ↦
            rw (used, s, younger)
              (Chosen-younger oldest oldest_i i _ e es nz (ground arith)
                (find_oldest-Chosen oldest oldest_i (suc i) es h a.1))
      ]
]

pub All-below :
    (n : ℕ) (es : List CacheEntry)
    → All (λ e. e.last_usage < n) es
    → n < 2 ^ 31
    → All (λ e. e.last_usage < 2 ^ 31) es
All-below n [] a h = tt
All-below n (e ∷ es) a h = (omega arith, All-below n es a.1 h)

recent_at :
    (n : ℕ) (es : List CacheEntry) (k : ℕ)
    → All (λ e. e.last_usage < n) es
    → k < length es
    → (get_or es k no_entry).last_usage < n
recent_at n [] k a h = absurd (omega arith)
recent_at n (e ∷ es) zero a h = a.0
recent_at n (e ∷ es) (suc k) a h = recent_at n es k a.1 (omega arith)

-- What holds of the entry at every index holds of all entries.
All-index :
    (P : CacheEntry → Type 0) (es : List CacheEntry)
    → ((k : ℕ) → k < length es → P (get_or es k no_entry))
    → All P es
All-index P [] h = tt
All-index P (e ∷ es) h = (h 0 (omega arith), All-index P es (λ k l. h (suc k) (omega arith)))

-- Of entries that were all used before the counter, the chosen one is not used, or is the oldest.
Chosen-oldest :
    (n r : ℕ) (es : List CacheEntry)
    → All (λ e. e.last_usage < n) es
    → 0 < length es
    → Chosen n 0 0 es r
    → ((get_or es r no_entry).ifc ≡ 0)
      ⊎ All (λ e. (e.ifc ≢ 0) × ((get_or es r no_entry).last_usage ≤ e.last_usage)) es
Chosen-oldest n r es a pos (unused j h s u) = let e : r ≡ j = omega arith in inl (rw e u)
Chosen-oldest n r es a pos (before s all) =
    let late = (all 0 pos).1 in absurd (omega (arith, late, recent_at n es 0 a pos))
Chosen-oldest n r es a pos (among j h s less all) =
    let e : r ≡ j = omega arith in inr (All-index _ es (rw e all))

-- The chosen entry is one of the cache.
pub Chosen-in :
    (oldest : ℕ) (es : List CacheEntry) (r : ℕ)
    → 0 < length es
    → Chosen oldest 0 0 es r
    → r < length es
Chosen-in oldest es r pos (unused j h s u) = omega arith
Chosen-in oldest es r pos (before s all) = omega arith
Chosen-in oldest es r pos (among j h s less all) = omega arith

-- In a cache of one entry or more, whose usage counter is below 2 ^ 31 and above the last usage of
-- every entry, an address that is not found is asked for, and an answer other than 0 is returned and
-- takes the place of an entry that is not used, or, all being in use, of the one that was used the
-- longest time ago. No other entry changes, and the counter grows by one.
pub arp_lookup_evicts :
    (reply ifc ip : ℕ) (c : Cache)
    → 0 < length c.entries
    → c.usage_counter < 2 ^ 31
    → All (λ e. e.last_usage < c.usage_counter) c.entries
    → find_entry ifc ip 0 c.entries ≡ none
    → reply ≢ 0
    → (v : ℕ) × (v < length c.entries)
      × (arp_lookup reply ifc ip c ≡ (
        reply,
        record {
          entries =
              set c.entries v
                (record { ifc = ifc; ip = ip; mac = reply; last_usage = c.usage_counter });
          usage_counter = c.usage_counter + 1;
        },
      ))
      × (((get_or c.entries v no_entry).ifc ≡ 0)
          ⊎ All
              (λ e. (e.ifc ≢ 0) × ((get_or c.entries v no_entry).last_usage ≤ e.last_usage))
              c.entries)
unfolding arp_lookup
arp_lookup_evicts reply ifc ip c pos small recent missing nz =
    let v = find_oldest c.usage_counter 0 0 c.entries in
    let ch =
      find_oldest-Chosen c.usage_counter 0 0 c.entries small
        (All-below c.usage_counter c.entries recent small) in
    let next : tick c.usage_counter ≡ c.usage_counter + 1 = omega arith in
    (
      v,
      Chosen-in c.usage_counter c.entries v pos ch,
      rw (missing, arp_lookup) (ground (arith, next)),
      Chosen-oldest c.usage_counter v c.entries recent pos ch,
    )
