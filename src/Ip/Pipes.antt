-- ===== src/Ip/Pipes.antt =====
-- The pipes of the internet protocol's service, src/progs/common/ip/ip.c: how they are made, copied and
-- destroyed, and their flags.
pub mod Unrouted
use muxomucota.Base.{
  ℕ, ◌-◌, ◌%◌, ◌^◌, Bool, true, false, not, Option, none, some, List, [], ◌∷◌, length, update, ◌==◌,
  if◌then◌else◌,
}
use muxomucota.Base.Outcome.{Outcome, ok, fault, ◌>>=◌}
use muxomucota.Ip.{VfsFile, Packet, flush}
use muxomucota.Ip.Address.{shift, get_ip}
use muxomucota.Ip.Routing.{Route, Answer, unreachable, silent, reachable, find_route}
use muxomucota.Ip.Arp.{Cache}

-- The state of the service: `connections`, `routing_table`, the MAC addresses, and the addresses of the
-- interfaces by their numbers.
pub record Service : Type 0 where
  pub connections : List VfsFile
  pub routes : List Route
  pub macs : Cache
  pub addresses : ℕ → ℕ

-- The values of `errno` that the service sets.
pub data Errno : Type 0 where
  einval ehostunreach enotconn : Errno

-- What `find_route` writes to a file.
abbrev pub write_route : Answer → VfsFile → VfsFile
write_route unreachable f = f
write_route (silent i) f = record f { ifc = some i; mac = 0 }
write_route (reachable i mac) f = record f { ifc = some i; mac = mac }

-- The outside world: which interfaces can be opened, and the MAC address that the next host asked
-- answers with, 0 for none.
pub record World : Type 0 where
  pub located : ℕ → Bool
  pub reply : ℕ

-- `find_route` for the interface and the MAC address of a file: whether it returns true, the file,
-- and the cache.
pub route_file : World → ℕ → Option ℕ → Service → VfsFile → Bool × VfsFile × Cache
route_file w ip on_ifc s f =
    let r = find_route w.located w.reply ip on_ifc s.routes s.macs in
    (
      elim r.0 [ unreachable ↦ false | silent i ↦ false | reachable i mac ↦ true ],
      write_route r.0 f,
      r.1,
    )

-- The file `f` is in front of the connections.
abbrev pub enter : VfsFile → Service → Service
enter f s = record s { connections = f ∷ s.connections }

-- `service_create_pipe` for a path. `memory` is the file as `malloc` leaves it, with whatever was
-- there before, and `named` the interface of the name behind the path's first character, if there
-- is one: the file, if one is made.
pub create_pipe :
    World → VfsFile → Option ℕ → (ℕ → ℕ) → Service → Outcome (Option VfsFile × Service)
unfolding route_file
create_pipe w memory named relpath s =
    let blank : VfsFile = record memory {
      ifc_fixed = false;
      dest = 0;
      protocol = 1;
      ttl = 128;
      owner = 2 ^ 32 - 1;
      signal = false;
      inqueue = [];
    } in
    if relpath 0 == 0
    then (let f : VfsFile = record blank { ifc = none; mac = 0 } in ok (some f, enter f s))
    else (get_ip (shift 1 relpath) >>= λ rip. elim rip [
      | none ↦ elim named [
        | none ↦ ok (none, s)
        | some i ↦
            let f : VfsFile = record blank { ifc = some i; ifc_fixed = true; mac = 0 } in
            ok (some f, enter f s)
      ]
      | some ip ↦
          let (found, routed, macs) = route_file w ip none s blank in
          let f : VfsFile = record routed { dest = ip } in
          ok (some f, enter f (record s { macs = macs }))
    ])

-- `service_duplicate_pipe`, whose file is at the address `id`.
pub duplicate_pipe : ℕ → VfsFile → Service → VfsFile × Service
duplicate_pipe id f s = let nf : VfsFile = record f { id = id } in (nf, enter nf s)

-- The loop of `service_destroy_pipe`: the connections without the file at `id`.
pub disconnect : ℕ → List VfsFile → List VfsFile
disconnect id [] = []
disconnect id (f ∷ fs) = let rest = disconnect id fs in if f.id == id then fs else f ∷ rest

-- `service_destroy_pipe`
abbrev pub destroy_pipe : ℕ → Service → Service
destroy_pipe id s = record s { connections = disconnect id s.connections }

-- The flags of a pipe, src/include/common/vfs.h.
pub data Flag : Type 0 where
  f_pressure f_readable f_writable f_flush f_ipc_signal f_dest_ip f_src_ip f_my_ip f_ip_ttl
        f_ip_proto_type f_other :
      Flag

-- The number of a truth value.
abbrev pub bit : Bool → ℕ
bit b = if b then 1 else 0

-- A number of the first packet in the queue, 0 if there is none.
abbrev pub of_first : (Packet → ℕ) → VfsFile → ℕ
of_first n f = elim f.inqueue [ [] ↦ 0 | p ∷ ps ↦ n p ]

-- `service_pipe_get_flag`: the number, and the error that it sets.
pub get_flag : Flag → VfsFile → Service → ℕ × Option Errno
get_flag f_pressure f s = (of_first (λ p. length p.content) f, none)
get_flag f_readable f s = (of_first (λ p. 1) f, none)
get_flag f_writable f s = (1, none)
get_flag f_ipc_signal f s = (bit f.signal, none)
get_flag f_dest_ip f s = (of_first (λ p. p.dest) f, none)
get_flag f_src_ip f s = (of_first (λ p. p.src) f, none)
get_flag f_my_ip f s = (elim f.ifc [ none ↦ 0 | some i ↦ s.addresses i ], none)
get_flag f_ip_ttl f s = (of_first (λ p. p.ttl) f, none)
get_flag f_ip_proto_type f s = (of_first (λ p. p.protocol) f, none)
get_flag f_flush f s = (0, some einval)
get_flag f_other f s = (0, some einval)

-- `service_pipe_set_flag` for a caller of the process group `group`: the error, the file and the
-- rest of the service.
pub set_flag : World → ℕ → Flag → ℕ → VfsFile → Service → Outcome (Option Errno × VfsFile × Service)
unfolding route_file
set_flag w group f_flush value f s = flush value f >>= λ f'. ok (none, f', s)
set_flag w group f_ipc_signal value f s =
    ok (none, record f { owner = group; signal = not (value == 0) }, s)
set_flag w group f_dest_ip value f s =
    let to : VfsFile = record f { dest = value % 2 ^ 32 } in
    let (found, routed, macs) =
      route_file w (value % 2 ^ 32) (if f.ifc_fixed then f.ifc else none) s to in
    ok (if found then none else some ehostunreach, routed, record s { macs = macs })
set_flag w group f_my_ip value f s = elim f.ifc [
  | none ↦ ok (some enotconn, f, s)
  | some i ↦ ok (none, f, record s { addresses = update s.addresses i (value % 2 ^ 32) })
]
set_flag w group f_ip_ttl value f s = ok (none, record f { ttl = value % 2 ^ 32 }, s)
set_flag w group f_ip_proto_type value f s = ok (none, record f { protocol = value % 2 ^ 32 }, s)
set_flag w group f_pressure value f s = ok (some einval, f, s)
set_flag w group f_readable value f s = ok (some einval, f, s)
set_flag w group f_writable value f s = ok (some einval, f, s)
set_flag w group f_src_ip value f s = ok (some einval, f, s)
set_flag w group f_other value f s = ok (some einval, f, s)
