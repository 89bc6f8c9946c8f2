-- ===== src/Ip/Pipes/Unrouted.antt =====
-- A pipe to an address that no route leads to.
use muxomucota.Base.{
  ℕ, ◌+◌, ◌-◌, ◌*◌, ◌^◌, ◌≤◌, ◌≡◌, ◌≢◌, false, none, some, List, [], ◌∷◌, ◌==◌, arith, refl, inl,
  inr, All, sym, ◌∙◌, Option, subst,
}
use muxomucota.Base.Outcome.{ok}
use muxomucota.Numbers.Value.{horner}
use muxomucota.Ip.{VfsFile}
use muxomucota.Ip.Address.{shift, get_ip}
use muxomucota.Ip.Address.Dotted.{Groups, get_ip-Groups}
use muxomucota.Ip.Routing.{Route, eligible, find_route, unreachable}
use muxomucota.Ip.Routing.Match.{InTable, find_route_longest}
use muxomucota.Ip.Pipes.{World, Service, enter, route_file, create_pipe}

All-at : (P : Route → Type 0) (r : Route) (table : List Route) → All P table → InTable r table → P r
All-at P r [] a h = absurd h
All-at P r (x ∷ xs) a (inl same) = subst P (sym same) a.0
All-at P r (x ∷ xs) a (inr later) = All-at P r xs a.1 later

find_route_none :
    (w : World) (ip : ℕ) (on_ifc : Option ℕ) (s : Service)
    → All (λ r. eligible ip on_ifc r ≡ false) s.routes
    → find_route w.located w.reply ip on_ifc s.routes s.macs ≡ (unreachable, s.macs)
find_route_none w ip on_ifc s a =
    elim (find_route_longest w.located w.reply ip on_ifc s.routes s.macs) [
      | inl (e, n) ↦ e
      | inr (b, (i, el, longest), rest) ↦
          let no : eligible ip on_ifc b ≡ false = All-at _ b s.routes a i in
          absurd (ground (arith, el, no))
    ]

-- The path is a character and four groups of digits with dots between them, whose values are bytes.
-- No route fits their address. Nevertheless `service_create_pipe` returns a file for the address, and
-- its interface and MAC address are what happened to be in the memory that `malloc` gave.
pub create_pipe_unrouted :
    (w : World) (memory : VfsFile) (named : Option ℕ) (relpath : ℕ → ℕ) (s : Service)
    (a b c d : List ℕ)
    → relpath 0 ≢ 0
    → Groups (shift 1 relpath) (a ∷ b ∷ c ∷ d ∷ [])
    → horner 10 0 a ≤ 255
    → horner 10 0 b ≤ 255
    → horner 10 0 c ≤ 255
    → horner 10 0 d ≤ 255
    → All
        (λ r.
          eligible
            (horner 10 0 a * 2 ^ 24
              + horner 10 0 b * 2 ^ 16
              + horner 10 0 c * 2 ^ 8
              + horner 10 0 d)
            none
            r
          ≡ false)
        s.routes
    → (f : VfsFile) × (create_pipe w memory named relpath s ≡ ok (some f, enter f s))
      × (f.dest
          ≡ horner 10 0 a * 2 ^ 24 + horner 10 0 b * 2 ^ 16 + horner 10 0 c * 2 ^ 8 + horner 10 0 d)
      × (f.ifc ≡ memory.ifc)
      × (f.mac ≡ memory.mac)
unfolding create_pipe route_file
create_pipe_unrouted w memory named relpath s a b c d nz g ha hb hc hd none_fits =
    let ip =
      horner 10 0 a * 2 ^ 24 + horner 10 0 b * 2 ^ 16 + horner 10 0 c * 2 ^ 8 + horner 10 0 d in
    let f : VfsFile = record memory {
      ifc_fixed = false;
      dest = ip;
      protocol = 1;
      ttl = 128;
      owner = 2 ^ 32 - 1;
      signal = false;
      inqueue = [];
    } in
    let read : get_ip (shift 1 relpath) ≡ ok (some ip) =
      get_ip-Groups (shift 1 relpath) a b c d g ∙ ground arith in
    let t : (relpath 0 == 0) ≡ false = ground arith in
    let lost = find_route_none w ip none s none_fits in
    (f, rw (t, read, lost) refl, refl, refl, refl)
