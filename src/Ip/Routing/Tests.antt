-- ===== src/Ip/Routing/Tests.antt =====
-- The routing table at concrete routes.
use muxomucota.Base.{ℕ, if◌then◌else◌, ◌≤◌, ◌≡◌, true, none, some, List, [], ◌∷◌, arith, refl, ◌⊎◌}
use muxomucota.Ip.Routing.{
  Route, eligible, find_route, search_routes, mask_length, add_route, is_target, same_route,
  unreachable,
}
use muxomucota.Ip.Routing.Match.{NoneFits, LongestMatch, answer, find_route_longest}
use muxomucota.Ip.Routing.Table.{gateway, copies, add_route_lem}
use muxomucota.Ip.Arp.{Cache}

-- A network, all others by a gateway.
abbrev table : List Route
table =
    record { dest = 0; mask = 0; gw = 0x0a000001; iface = 1 }
    ∷ record { dest = 0x0a000000; mask = 0xff000000; gw = 0; iface = 2 }
    ∷ []

abbrev cache : Cache
cache = record {
  entries =
      record { ifc = 1; ip = 0x0a000001; mac = 0x1234; last_usage = 1 }
      ∷ record { ifc = 2; ip = 0x0a000003; mac = 0x4321; last_usage = 0 }
      ∷ [];
  usage_counter = 2;
}

search_routes-network :
    search_routes 0x0a000009 none none table
    ≡ some (record { dest = 0x0a000000; mask = 0xff000000; gw = 0; iface = 2 })
unfolding search_routes eligible mask_length
search_routes-network = refl

find_route_longest_example :
    ((find_route (λ i. true) 0x5555 0x0a000009 none table cache ≡ (unreachable, cache))
      × NoneFits 0x0a000009 none table)
    ⊎ ((b : Route) × LongestMatch 0x0a000009 none table b
        × (find_route (λ i. true) 0x5555 0x0a000009 none table cache
            ≡ answer (λ i. true) 0x5555 0x0a000009 cache b))
find_route_longest_example = find_route_longest (λ i. true) 0x5555 0x0a000009 none table cache

-- Another gateway for all others.
abbrev new_gateway : Route
new_gateway = record { dest = 0; mask = 0; gw = 0x0a000002; iface = 1 }

table_once : (k : Route) → copies k table ≤ 1
unfolding same_route
table_once k = ground arith

add_route_lem_example :
    ((k : Route)
      → gateway k (add_route new_gateway table)
        ≡ (if same_route new_gateway k then some 0x0a000002 else gateway k table))
    × ((k : Route) → copies k (add_route new_gateway table) ≤ 1)
add_route_lem_example = add_route_lem new_gateway table table_once

-- All routes of an interface.
abbrev all_of : ℕ → Route
all_of i = record { dest = 0; mask = 0; gw = 0; iface = i }

targets : (r : Route) → r.iface ≡ 1 → is_target (all_of 1) r ≡ true
unfolding is_target
targets r h = ground arith
