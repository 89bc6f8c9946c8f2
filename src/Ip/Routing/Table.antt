-- ===== src/Ip/Routing/Table.antt =====
-- What `add_route` and `del_route` do to the routing table.
use muxomucota.Base.{
  ℕ, ◌+◌, ◌≤◌, ◌≡◌, true, false, Option, none, some, List, [], ◌∷◌, ◌++◌, arith, refl,
  if◌then◌else◌, Bool-cases, inl, inr, ◌⊎◌, All, ap,
}
use muxomucota.Ip.Routing.{Route, same_route, set_gateway, add_route, is_target, del_route}

-- The gateway of the first route with the destination, mask and interface of `k`.
abbrev pub gateway : Route → List Route → Option ℕ
gateway k [] = none
gateway k (r ∷ rs) = if same_route r k then some r.gw else gateway k rs

-- How many routes have the destination, mask and interface of `k`.
abbrev pub copies : Route → List Route → ℕ
copies k [] = 0
copies k (r ∷ rs) = (if same_route r k then 1 else 0) + copies k rs

copies_congr :
    (a b : Route) (table : List Route) → same_route a b ≡ true → copies b table ≡ copies a table
unfolding same_route
copies_congr a b [] h = refl
copies_congr a b (r ∷ rs) h = ground (arith, copies_congr a b rs h)

-- What `set_gateway` makes of a table.
set_gateway_lem :
    (rte k : Route) (table : List Route)
    → ((set_gateway rte table ≡ none) × (copies rte table ≡ 0))
      ⊎ ((table' : List Route) × (set_gateway rte table ≡ some table')
          × (gateway k table' ≡ (if same_route rte k then some rte.gw else gateway k table))
          × (copies k table' ≡ copies k table))
unfolding set_gateway same_route
set_gateway_lem rte k [] = inl (refl, refl)
set_gateway_lem rte k (r ∷ rs) = elim (Bool-cases (same_route r rte)) [
  | inl here ↦ inr (record r { gw = rte.gw } ∷ rs, ground arith, ground arith, ground arith)
  | inr other ↦ elim (set_gateway_lem rte k rs) [
    | inl (e, c) ↦ inl (ground (arith, e), ground (arith, c))
    | inr (rs', e, g, c) ↦ inr (r ∷ rs', ground (arith, e), ground (arith, g), ground (arith, c))
  ]
]

-- In a table that has each destination, mask and interface at most once, `add_route` gives the
-- gateway of the new route to its destination, mask and interface, changes no other gateway, and
-- keeps the table such.
pub add_route_lem :
    (rte : Route) (table : List Route)
    → ((k : Route) → copies k table ≤ 1)
    → ((k : Route)
        → gateway k (add_route rte table)
          ≡ (if same_route rte k then some rte.gw else gateway k table))
      × ((k : Route) → copies k (add_route rte table) ≤ 1)
unfolding add_route same_route
add_route_lem rte table once = (
  λ k. elim (set_gateway_lem rte k table) [
    | inl (e, c) ↦ ground (arith, e)
    | inr (t, e, g, c) ↦ ground (arith, e, g)
  ],
  λ k. elim (set_gateway_lem rte k table) [
    | inl (e, c) ↦ ground (arith, e, c, once k, copies_congr rte k table)
    | inr (t, e, g, c) ↦ ground (arith, e, c, once k)
  ],
)

-- Two routes to be removed in a row: `del_route` leaves the second one in the table.
pub del_route_skips :
    (rte a b : Route) (before behind : List Route)
    → All (λ r. is_target rte r ≡ false) before
    → is_target rte a ≡ true
    → is_target rte b ≡ true
    → del_route rte (before ++ (a ∷ b ∷ behind)) ≡ before ++ (b ∷ del_route rte behind)
unfolding del_route
del_route_skips rte a b [] behind n ta tb = rw ta refl
del_route_skips rte a b (r ∷ []) behind n ta tb = rw (n.0, ta) refl
del_route_skips rte a b (r ∷ s ∷ rs) behind n ta tb =
    rw n.0 (ap (◌∷◌ r) (del_route_skips rte a b (s ∷ rs) behind n.1 ta tb))
