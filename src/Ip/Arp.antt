-- ===== src/Ip/Arp.antt =====
-- The cache of MAC addresses, src/progs/common/ip/arp.c.
pub mod Lookup
pub mod Again
mod Tests
use muxomucota.Base.{
  ℕ, zero, suc, ◌+◌, ◌%◌, ◌^◌, Bool, ◌&&◌, Option, none, some, List, [], ◌∷◌, set, get_or, ◌==◌,
  ltb, if◌then◌else◌,
}

-- `struct cache_entry`, where the interface 0 is the null pointer.
pub record CacheEntry : Type 0 where
  pub ifc : ℕ
  pub ip : ℕ
  pub mac : ℕ
  pub last_usage : ℕ

-- `arp_cache`, of ARP_CACHE_SIZE entries, and the counter of `arp_lookup`.
pub record Cache : Type 0 where
  pub entries : List CacheEntry
  pub usage_counter : ℕ

-- `a < b` for numbers of type `int` that are given by their 32 bits.
abbrev pub int_ltb : ℕ → ℕ → Bool
int_ltb a b = ltb ((a + 2 ^ 31) % 2 ^ 32) ((b + 2 ^ 31) % 2 ^ 32)

abbrev pub is_entry : ℕ → ℕ → CacheEntry → Bool
is_entry ifc ip e = e.ifc == ifc && e.ip == ip

-- The first loop of `arp_lookup` from the index `i` on: the index of the address, and its MAC
-- address.
pub find_entry : ℕ → ℕ → ℕ → List CacheEntry → Option (ℕ × ℕ)
find_entry ifc ip i [] = none
find_entry ifc ip i (e ∷ es) =
    let later = find_entry ifc ip (suc i) es in if is_entry ifc ip e then some (i, e.mac) else later

-- The second loop from the index `i` on: the index of the first entry that is not used, or else of
-- the one whose last use is the longest time ago.
pub find_oldest : ℕ → ℕ → ℕ → List CacheEntry → ℕ
find_oldest oldest oldest_i i [] = oldest_i
find_oldest oldest oldest_i i (e ∷ es) =
    let older = int_ltb e.last_usage oldest in
    let later =
      find_oldest (if older then e.last_usage else oldest) (if older then i else oldest_i) (suc i)
        es in
    if e.ifc == 0 then i else later

-- `__sync_fetch_and_add(&usage_counter, 1)`
abbrev pub tick : ℕ → ℕ
tick n = (n + 1) % 2 ^ 32

abbrev pub no_entry : CacheEntry
no_entry = record { ifc = 0; ip = 0; mac = 0; last_usage = 0 }

-- The entry `i` is used.
abbrev pub touch : ℕ → Cache → Cache
touch i c = record {
  entries = set c.entries i (record (get_or c.entries i no_entry) { last_usage = c.usage_counter });
  usage_counter = tick c.usage_counter;
}

-- `arp_lookup`, with no other thread about: the MAC address, 0 if there is none. `reply` is what
-- `arp_resolve` makes of the other host's answer, 0 if there is none.
pub arp_lookup : ℕ → ℕ → ℕ → Cache → ℕ × Cache
arp_lookup reply ifc ip c = elim (find_entry ifc ip 0 c.entries) [
  | some r ↦ (r.1, touch r.0 c)
  | none ↦
      let i = find_oldest c.usage_counter 0 0 c.entries in
      let e : CacheEntry = record {
        ifc = ifc;
        ip = ip;
        mac = reply;
        last_usage = c.usage_counter;
      } in
      if reply == 0
      then (0, c)
      else (reply, record { entries = set c.entries i e; usage_counter = tick c.usage_counter })
]
