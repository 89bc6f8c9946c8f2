-- ===== src/Ip/Routing.antt =====
-- The routing table, src/progs/common/ip/routing.c. The name of an interface is a number.
pub mod Match
pub mod Table
mod Tests
use Prim.Native.Nat.{bit_and}
use muxomucota.Base.{
  ℕ, zero, suc, ◌+◌, ◌-◌, ◌*◌, ◌/◌, ◌%◌, ◌^◌, Bool, true, false, not, ◌&&◌, ◌||◌, Option, none,
  some, List, [], ◌∷◌, ◌==◌, ltb, if◌then◌else◌,
}
use muxomucota.Ip.Arp.{Cache, arp_lookup}

-- `struct routing_table_entry`
pub record Route : Type 0 where
  pub dest : ℕ
  pub mask : ℕ
  pub gw : ℕ
  pub iface : ℕ

-- `__builtin_popcount` of the `n` lowest bits
pub popcount : ℕ → ℕ → ℕ
popcount zero x = 0
popcount (suc n) x = x % 2 + popcount n (x / 2)

-- How long the mask of a route is.
pub mask_length : Route → ℕ
unfolding popcount
mask_length rte = popcount 32 rte.mask

-- `((rte->dest & rte->mask) == (ip & rte->mask)) && ((on_ifc == NULL) || …)`: an interface is known
-- by its name.
pub eligible : ℕ → Option ℕ → Route → Bool
eligible ip on_ifc rte =
    bit_and rte.dest rte.mask == bit_and ip rte.mask
    && (elim on_ifc [ none ↦ true | some ifc ↦ rte.iface == ifc ])

-- The loop of `find_route`, with the best match so far.
pub search_routes : ℕ → Option ℕ → Option Route → List Route → Option Route
search_routes ip on_ifc best [] = best
search_routes ip on_ifc best (rte ∷ rtes) =
    let longer : Bool = elim best [
      | none ↦ true
      | some b ↦ ltb (mask_length b) (mask_length rte)
    ] in
    search_routes ip on_ifc (if eligible ip on_ifc rte && longer then some rte else best) rtes

-- What `find_route` does: it returns false; it writes the interface, and 0 for the MAC address, and
-- returns false; it writes both and returns true.
pub data Answer : Type 0 where
  unreachable : Answer
  silent : ℕ → Answer
  reachable : ℕ → ℕ → Answer

-- `find_route`. `located` is whether `locate_interface` finds or opens an interface, and `reply` the
-- answer of the host that is asked for its MAC address, 0 for none.
pub find_route : (ℕ → Bool) → ℕ → ℕ → Option ℕ → List Route → Cache → Answer × Cache
find_route located reply ip on_ifc table cache = elim (search_routes ip on_ifc none table) [
  | none ↦ (unreachable, cache)
  | some rte ↦
      let asked = arp_lookup reply rte.iface (if rte.gw == 0 then ip else rte.gw) cache in
      let found =
        if bit_and ip (2 ^ 32 - 1 - rte.mask) == 2 ^ 32 - 1
        then (0xffffffffffff, cache)
        else asked in
      if not (located rte.iface)
      then (unreachable, cache)
      else (if found.0 == 0 then silent rte.iface else reachable rte.iface found.0, found.1)
]

-- The same destination, mask and interface.
pub same_route : Route → Route → Bool
same_route a b = a.dest == b.dest && a.mask == b.mask && a.iface == b.iface

-- The loop of `add_route`: the table with another gateway, if the route is there.
pub set_gateway : Route → List Route → Option (List Route)
unfolding same_route
set_gateway rte [] = none
set_gateway rte (r ∷ rs) =
    let later = set_gateway rte rs in
    if same_route r rte
    then some (record r { gw = rte.gw } ∷ rs)
    else elim later [ none ↦ none | some rs' ↦ some (r ∷ rs') ]

-- `add_route`, for a message that is a route
pub add_route : Route → List Route → List Route
unfolding set_gateway
add_route rte table = elim (set_gateway rte table) [ none ↦ rte ∷ table | some table' ↦ table' ]

-- The routes that `del_route` is to remove: all of an interface if nothing else is given.
pub is_target : Route → Route → Bool
is_target rte r =
    r.iface == rte.iface
    && ((rte.dest == 0 && rte.gw == 0 && rte.mask == 0)
        || (r.dest == rte.dest && r.mask == rte.mask))

-- The loop of `del_route`, which goes on behind the next route where it removes one.
pub del_route : Route → List Route → List Route
del_route rte [] = []
del_route rte (r ∷ []) = if is_target rte r then [] else r ∷ []
del_route rte (r ∷ n ∷ rs) =
    let gone = n ∷ del_route rte rs in
    let kept = r ∷ del_route rte (n ∷ rs) in if is_target rte r then gone else kept
