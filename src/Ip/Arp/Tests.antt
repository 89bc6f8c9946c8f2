-- ===== src/Ip/Arp/Tests.antt =====
-- The cache of MAC addresses with two entries.
use muxomucota.Base.{ℕ, ◌<◌, ◌≤◌, ◌≡◌, ◌≢◌, none, [], ◌∷◌, set, get_or, arith, refl, ◌⊎◌, All}
use muxomucota.Ip.Arp.{Cache, no_entry, find_entry, arp_lookup}
use muxomucota.Ip.Arp.Lookup.{arp_lookup_evicts}

abbrev cache : Cache
cache = record {
  entries =
      record { ifc = 1; ip = 0x0a000001; mac = 0x1234; last_usage = 1 }
      ∷ record { ifc = 2; ip = 0x0a000003; mac = 0x4321; last_usage = 0 }
      ∷ [];
  usage_counter = 2;
}

not_cached : find_entry 1 0x0a000009 0 cache.entries ≡ none
unfolding find_entry
not_cached = refl

arp_lookup_evicts_example :
    (v : ℕ) × (v < 2)
    × (arp_lookup 0x5555 1 0x0a000009 cache ≡ (
      0x5555,
      record {
        entries =
            set cache.entries v (record { ifc = 1; ip = 0x0a000009; mac = 0x5555; last_usage = 2 });
        usage_counter = 3;
      },
    ))
    × (((get_or cache.entries v no_entry).ifc ≡ 0)
        ⊎ All
            (λ e. (e.ifc ≢ 0) × ((get_or cache.entries v no_entry).last_usage ≤ e.last_usage))
            cache.entries)
arp_lookup_evicts_example =
    arp_lookup_evicts 0x5555 1 0x0a000009 cache (omega arith) (omega arith)
      (omega arith, (omega arith, tt)) not_cached (omega arith)

answered : (arp_lookup 0x5555 1 0x0a000009 cache).0 ≢ 0
unfolding arp_lookup find_entry
answered h = omega (arith, asked)
  where
    asked : (arp_lookup 0x5555 1 0x0a000009 cache).0 ≡ 0x5555
    asked = refl
