-- ===== src/Tcp/Service.antt =====
-- The transmission control protocol's service, src/progs/common/tcp/tcp.c: its pipes. A child has what comes in.
-- What happens to a connection while a function waits is a parameter of that function.
pub mod Incoming
pub mod Transfer
pub mod Invariant
pub mod Malformed
mod Tests
pub mod Flags
pub mod Handshake
pub mod Arrivals
use muxomucota.Base.{
  ℕ, zero, suc, ◌+◌, ◌-◌, ◌*◌, ◌/◌, ◌%◌, ◌^◌, Bool, true, false, not, ◌&&◌, ◌||◌, Option, none,
  some, List, [], ◌∷◌, ◌++◌, length, ◌==◌, ltb, leb, if◌then◌else◌,
}
use muxomucota.Base.Outcome.{Outcome, ok, panic, fault, ◌>>=◌, ◌>>◌, kassert}
use muxomucota.Numbers.{strtoll, strtol}
use muxomucota.Ip.{take}
use muxomucota.Ip.Address.{shift}
use muxomucota.Ip.Pipes.{Errno, einval}
use muxomucota.Tcp.{
  tcp_fin, tcp_syn, tcp_rst, tcp_psh, tcp_ack, has_flag, default_window, mss, TcpHeader,
  parse_segment, pseudo_header, tcp_checksum, TcpStatus, closed, listen, syn_rcvd, syn_sent, open_,
  fin_rcvd, fin_sent, Segment, size_of, header_size, not_before, Connection,
}
use muxomucota.Tcp.Queues.{
  tcp_acked, flush_all_queues, enqueue, seq_size, send_tcp_packet, handle_inqueue, tcp_receive,
}

-- The static variables.
pub record TcpService : Type 0 where
  pub connections : List Connection
  pub port_counter : ℕ

-- `get_user_port`: the port, and the counter.
abbrev pub get_user_port : ℕ → ℕ × ℕ
get_user_port n = (n, if ltb n 0xffff then n + 1 else 1024)

-- The loop of `get_ip` for the `left` parts that are left, with the address so far: the address, and
-- the text from the colon on.
unfoldable pub get_peer_from : ℕ → (ℕ → ℕ) → ℕ → Outcome (Option (ℕ × (ℕ → ℕ)))
get_peer_from zero s ip = ok none
get_peer_from (suc left) s ip = strtol s 10 >>= λ v. strtoll s 10 >>= λ r.
    let negative = v.1 && not (v.2 == 0) in
    let end = s r.2 in
    let ip' = (ip * 256 + v.2) % 2 ^ 32 in
    let more = get_peer_from left (shift (r.2 + 1) s) ip' in
    if negative
      || ltb 255 v.2
      || (not (end == b'.') && ltb 0 left)
      || (not (end == b':') && left == 0)
    then ok none
    else if left == 0
    then ok (some (ip', shift r.2 s))
    else more

-- The address and the port in the path of a pipe.
pub get_peer : (ℕ → ℕ) → Outcome (Option (ℕ × ℕ))
unfolding get_peer_from
get_peer relpath = get_peer_from 4 (shift 1 relpath) 0 >>= λ a. elim a [
  | none ↦ ok none
  | some (ip, rest) ↦
      (strtol (shift 1 rest) 10 >>= λ v. strtoll (shift 1 rest) 10 >>= λ r.
      let negative = v.1 && not (v.2 == 0) in
      ok (if negative || ltb 0xffff v.2 || not (rest (1 + r.2) == 0) then none else some (ip, v.2)))
]

-- `tcp_connect` up to the loop that waits; `my_ip` is the address of the interface.
pub tcp_connect : ℕ → ℕ → Connection → Connection
tcp_connect now my_ip c =
    let c' : Connection = record (flush_all_queues c) { ip = my_ip; seq = 0; status = syn_sent } in
    send_tcp_packet now tcp_syn [] c'

-- The end of `tcp_disconnect`.
abbrev pub reset : ℕ → Connection → Connection
reset now c = record (send_tcp_packet now tcp_rst [] c) { status = closed }

-- The part of `tcp_disconnect` for a connection that was open.
abbrev pub finish : ℕ → (Connection → Connection) → Connection → Connection
finish now meanwhile c =
    let c' = meanwhile (send_tcp_packet now (tcp_fin + tcp_ack) [] c) in
    elim c'.status [ closed ↦ c' | _ ↦ reset now c' ]

-- `tcp_disconnect`
pub tcp_disconnect : ℕ → (Connection → Connection) → Connection → Connection
tcp_disconnect now meanwhile c =
    let f = flush_all_queues c in
    elim c.status [
      | closed ↦ f
      | listen ↦ f
      | syn_sent ↦ reset now f
      | syn_rcvd ↦ reset now f
      | open_ ↦ finish now meanwhile (record f { status = fin_sent })
      | fin_rcvd ↦ finish now meanwhile (record f { status = closed })
      | fin_sent ↦ finish now meanwhile f
    ]

-- The connection at an address is taken out of the list.
pub remove_connection : ℕ → List Connection → List Connection
remove_connection id [] = []
remove_connection id (c ∷ cs) =
    let rest = remove_connection id cs in if c.id == id then cs else c ∷ rest

-- `service_create_pipe`, for a connection at the address `id`: the connection, if there is one.
-- `connected` is what becomes of it while `tcp_connect` waits.
pub tcp_create_pipe :
    ℕ
    → ℕ
    → ℕ
    → (Connection → Connection)
    → (ℕ → ℕ)
    → TcpService
    → Outcome (Option Connection × TcpService)
unfolding get_peer tcp_connect
tcp_create_pipe now my_ip id connected relpath s =
    let peer : Outcome (Option (ℕ × ℕ)) =
      if relpath 0 == 0 then ok (some (0, 0)) else get_peer relpath in
    peer >>= λ o. elim o [
      | none ↦ ok (none, s)
      | some (dest_ip, dest_port) ↦
          let (port, counter) = get_user_port s.port_counter in
          let c : Connection = record {
            id = id;
            ip = 0;
            dest_ip = dest_ip;
            port = port;
            dest_port = dest_port;
            status = closed;
            seq = 0;
            ack = 0;
            owner = 2 ^ 32 - 1;
            signal = false;
            window = default_window;
            inqueue = [];
            outqueue = [];
            thrown = [];
          } in
          let waited = connected (tcp_connect now my_ip c) in
          let entered : Connection → TcpService =
            λ d. record { connections = d ∷ s.connections; port_counter = counter } in
          let given_up : TcpService = record s { port_counter = counter } in
          if dest_ip == 0 then ok (some c, entered c) else elim waited.status [
            | open_ ↦ ok (some waited, entered waited)
            | _ ↦ ok (none, given_up)
          ]
    ]

-- `drop` of the library, over the native numbers.
abbrev pub drop : ℕ → List ℕ → List ℕ
drop zero bytes = bytes
drop (suc n) [] = []
drop (suc n) (b ∷ bytes) = drop n bytes

-- The loop of `service_stream_send`, for at most `rounds` rounds.
pub send_chunks : ℕ → ℕ → List ℕ → Connection → Connection
send_chunks zero now content c = c
send_chunks (suc rounds) now content c =
    let last = leb (length content) mss in
    let sent =
      send_tcp_packet now (if last then tcp_ack + tcp_psh else tcp_ack) (take mss content) c in
    let more = send_chunks rounds now (drop mss content) sent in
    elim content [ [] ↦ c | b ∷ bs ↦ more ]

-- A connection in this state can send.
abbrev pub can_send : TcpStatus → Bool
can_send open_ = true
can_send fin_rcvd = true
can_send closed = false
can_send listen = false
can_send syn_rcvd = false
can_send syn_sent = false
can_send fin_sent = false

-- `service_stream_send`: how much was sent, and the connection. A round sends a byte or more.
pub tcp_stream_send : ℕ → List ℕ → Connection → ℕ × Connection
unfolding send_chunks
tcp_stream_send now content c =
    if can_send c.status
    then (length content, send_chunks (length content) now content c)
    else (0, c)

-- `service_destroy_pipe` for the connection `c`, which is freed: what became of it, and the service.
pub tcp_destroy_pipe :
    ℕ → (Connection → Connection) → Connection → TcpService → Connection × TcpService
unfolding remove_connection tcp_disconnect
tcp_destroy_pipe now meanwhile c s = (
  flush_all_queues (tcp_disconnect now meanwhile c),
  record s { connections = remove_connection c.id s.connections },
)
