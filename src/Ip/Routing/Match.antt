-- ===== src/Ip/Routing/Match.antt =====
-- The choice of a route by `find_route`.
use Prim.Native.Nat.{bit_and}
use muxomucota.Base.{
  ℕ, ◌-◌, ◌^◌, not, ◌≤◌, ◌≡◌, ◌≢◌, Bool, true, false, Option, none, some, List, [], ◌∷◌, arith,
  refl, ltb, ◌==◌, if◌then◌else◌, Bool-cases, inl, inr, ◌⊎◌, All, subst, sym, ap,
}
use muxomucota.Ip.Routing.{
  Route, mask_length, eligible, search_routes, find_route, Answer, unreachable, silent, reachable,
}
use muxomucota.Ip.Arp.{Cache, arp_lookup}

-- The route is in the table.
abbrev pub InTable : Route → List Route → Type 0
InTable r [] = ⊥
InTable r (x ∷ xs) = (r ≡ x) ⊎ InTable r xs

-- What is known of the best match `b` for a table that was searched behind the match `before`.
pub record Best (ip : ℕ) (on_ifc : Option ℕ) (before : Option Route) (table : List Route)
    (b : Route) : Type 0 where
  pub somewhere : (before ≡ some b) ⊎ (InTable b table × (eligible ip on_ifc b ≡ true))
  pub longest :
      (r : Route) → InTable r table → eligible ip on_ifc r ≡ true → mask_length r ≤ mask_length b
  pub not_shorter : (r : Route) → before ≡ some r → mask_length r ≤ mask_length b

abbrev Searched : ℕ → Option ℕ → Option Route → List Route → Option Route → Type 0
Searched ip on_ifc before table found =
    ((found ≡ none)
      × (before ≡ none)
      × ((r : Route) → InTable r table → eligible ip on_ifc r ≢ true))
    ⊎ ((b : Route) × (found ≡ some b) × Best ip on_ifc before table b)

some-injective : {a b : Route} → some a ≡ some b → a ≡ b
some-injective h = cc

none-some : {o : Option Route} {b : Route} → o ≡ none → o ≡ some b → ⊥
none-some h k = ground (arith, h, k)

le_trans : {a b c : ℕ} → a ≤ b → b ≤ c → a ≤ c
le_trans h k = omega arith

-- The next route of the table is the best match so far, and it is not.
module _ (ip : ℕ) (on_ifc : Option ℕ) (before found : Option Route) (x : Route)
    (xs : List Route) where
  step_taken :
      eligible ip on_ifc x ≡ true
      → ((r : Route) → before ≡ some r → mask_length r ≤ mask_length x)
      → Searched ip on_ifc (some x) xs found
      → Searched ip on_ifc before (x ∷ xs) found
  step_taken el up (inl (e, f, g)) = cc
  step_taken el up (inr (b, e, best)) = inr (
    b,
    e,
    record {
      somewhere = elim best.somewhere [
        | inl same ↦
            inr (inl (cc), subst (λ r. eligible ip on_ifc r ≡ true) (some-injective same) el)
        | inr (i, f) ↦ inr (inr i, f)
      ];
      longest = λ r i f. elim i [
        | inl same ↦ best.not_shorter r (ap some (sym same))
        | inr later ↦ best.longest r later f
      ];
      not_shorter = λ r h. le_trans (up r h) (best.not_shorter x refl);
    },
  )

  step_left :
      (eligible ip on_ifc x ≡ true
        → (b : Route) × (before ≡ some b) × (mask_length x ≤ mask_length b))
      → Searched ip on_ifc before xs found
      → Searched ip on_ifc before (x ∷ xs) found
  step_left low (inl (e, f, g)) = inl (
    e,
    f,
    λ r i h. elim i [
      | inl same ↦
          let (b, k, l) = low (subst (λ q. eligible ip on_ifc q ≡ true) same h) in
          absurd (none-some f k)
      | inr later ↦ g r later h
    ],
  )
  step_left low (inr (b, e, best)) = inr (
    b,
    e,
    record {
      somewhere = elim best.somewhere [ inl same ↦ inl same | inr (i, f) ↦ inr (inr i, f) ];
      longest = λ r i f. elim i [
        | inl same ↦
            let (c, k, l) = low (subst (λ q. eligible ip on_ifc q ≡ true) same f) in
            subst (λ q. mask_length q ≤ mask_length b) (sym same)
              (le_trans l (best.not_shorter c k))
        | inr later ↦ best.longest r later f
      ];
      not_shorter = best.not_shorter;
    },
  )

search_routes-Best :
    (ip : ℕ) (on_ifc : Option ℕ) (best : Option Route) (table : List Route)
    → Searched ip on_ifc best table (search_routes ip on_ifc best table)
unfolding search_routes
search_routes-Best ip on_ifc none [] = inl (refl, refl, λ r i. absurd i)
search_routes-Best ip on_ifc (some b) [] = inr (
  b,
  refl,
  record { somewhere = inl refl; longest = λ r i. absurd i; not_shorter = λ r h. ground arith },
)
search_routes-Best ip on_ifc none (x ∷ xs) = elim (Bool-cases (eligible ip on_ifc x)) [
  | inl e ↦
      rw e
        (step_taken ip on_ifc none _ x xs e (λ r h. cc) (search_routes-Best ip on_ifc (some x) xs))
  | inr e ↦ rw e (
      step_left ip on_ifc none _ x xs (λ h. absurd (ground (arith, e, h)))
        (search_routes-Best ip on_ifc none xs))
]
search_routes-Best ip on_ifc (some b) (x ∷ xs) = elim (Bool-cases (eligible ip on_ifc x)) [
  | inr e ↦ rw e (
      step_left ip on_ifc (some b) _ x xs (λ h. absurd (ground (arith, e, h)))
        (search_routes-Best ip on_ifc (some b) xs))
  | inl e ↦ elim (Bool-cases (ltb (mask_length b) (mask_length x))) [
    | inl l ↦
        rw (e, l)
          (step_taken ip on_ifc (some b) _ x xs e
            (λ r h. subst (λ q. mask_length q ≤ mask_length x) (some-injective h) (ground arith))
            (search_routes-Best ip on_ifc (some x) xs))
    | inr l ↦
        rw (e, l)
          (step_left ip on_ifc (some b) _ x xs (λ h. (b, refl, ground arith))
            (search_routes-Best ip on_ifc (some b) xs))
  ]
]

-- What holds of every route of a table.
All-InTable :
    {P : Route → Type 0} (table : List Route) → ((r : Route) → InTable r table → P r) → All P table
All-InTable [] h = tt
All-InTable (x ∷ xs) h = (h x (inl refl), All-InTable xs (λ r i. h r (inr i)))

-- The routes that `find_route` can choose from, and its answer for one that it chose.
abbrev pub NoneFits : ℕ → Option ℕ → List Route → Type 0
NoneFits ip on_ifc table = All (λ r. eligible ip on_ifc r ≡ false) table

abbrev pub LongestMatch : ℕ → Option ℕ → List Route → Route → Type 0
LongestMatch ip on_ifc table b =
    InTable b table
    × (eligible ip on_ifc b ≡ true)
    × All (λ r. (eligible ip on_ifc r ≡ false) ⊎ (mask_length r ≤ mask_length b)) table

abbrev pub answer : (ℕ → Bool) → ℕ → ℕ → Cache → Route → Answer × Cache
answer located reply ip cache b =
    let asked = arp_lookup reply b.iface (if b.gw == 0 then ip else b.gw) cache in
    if not (located b.iface)
    then (unreachable, cache)
    else if bit_and ip (2 ^ 32 - 1 - b.mask) == 2 ^ 32 - 1
    then (reachable b.iface 0xffffffffffff, cache)
    else if asked.0 == 0
    then (silent b.iface, asked.1)
    else (reachable b.iface asked.0, asked.1)

-- Either no route of the table fits, and `find_route` returns false and changes nothing; or there is
-- a route that fits, and whose mask is at least as long as that of every route that does. Then the
-- interface is that route's, and `find_route` returns false if there is none of that name. The MAC
-- address is the broadcast address if the destination without the bits of the mask is 2^32 - 1;
-- otherwise it is what `arp_lookup` gives for the gateway, or for the destination itself where the
-- route has no gateway, and `find_route` returns false if that is 0.
pub find_route_longest :
    (located : ℕ → Bool) (reply ip : ℕ) (on_ifc : Option ℕ) (table : List Route) (cache : Cache)
    → ((find_route located reply ip on_ifc table cache ≡ (unreachable, cache))
        × NoneFits ip on_ifc table)
      ⊎ ((b : Route) × LongestMatch ip on_ifc table b
          × (find_route located reply ip on_ifc table cache ≡ answer located reply ip cache b))
unfolding find_route
find_route_longest located reply ip on_ifc table cache =
    elim (search_routes-Best ip on_ifc none table) [
      | inl (e, f, g) ↦ inl (
        rw (e, find_route) refl,
        All-InTable table (λ r i. elim (Bool-cases (eligible ip on_ifc r)) [
          | inl y ↦ absurd (g r i y)
          | inr n ↦ n
        ]),
      )
      | inr (b, e, best) ↦
          let here : InTable b table × (eligible ip on_ifc b ≡ true) = elim best.somewhere [
            | inl h ↦ cc
            | inr h ↦ h
          ] in
          inr (
            b,
            (
              here.0,
              here.1,
              All-InTable table (λ r i. elim (Bool-cases (eligible ip on_ifc r)) [
                | inl y ↦ inr (best.longest r i y)
                | inr n ↦ inl n
              ]),
            ),
            rw (e, find_route) (ground arith),
          )
    ]
