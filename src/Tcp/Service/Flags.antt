-- ===== src/Tcp/Service/Flags.antt =====
-- The flags of a pipe of the service.
pub mod Pressure
mod Tests
use muxomucota.Base.{
  ℕ, ◌+◌, ◌-◌, ◌*◌, ◌/◌, ◌%◌, ◌^◌, ◌≤◌, ◌<◌, ◌≡◌, ◌≢◌, Bool, true, false, not, ◌&&◌, ◌||◌, Option,
  none, some, List, [], ◌∷◌, length, All, arith, refl, ◌==◌, ltb, leb, if◌then◌else◌, ◌∙◌, sym, ap,
  Bool-cases, inl, inr,
}
use muxomucota.Base.Outcome.{Outcome, ok, ◌>>=◌}
use muxomucota.Ip.{take}
use muxomucota.Ip.Pipes.{Errno, einval, bit}
use muxomucota.Tcp.{
  TcpStatus, closed, listen, syn_rcvd, syn_sent, open_, fin_rcvd, fin_sent, Segment, size_of,
  header_size, not_before, Connection,
}
use muxomucota.Tcp.Queues.{tcp_receive}
use muxomucota.Tcp.Queues.Receive.{IsData, receive_part, receive_all_of}
use muxomucota.Tcp.Service.{can_send, tcp_connect, tcp_disconnect}

-- The flags, src/include/common/vfs.h.
pub data PipeFlag : Type 0 where
  f_pressure f_readable f_writable f_flush f_ipc_signal f_dest_ip f_src_ip f_dest_port f_src_port
        f_my_port f_connection_status f_other :
      PipeFlag

-- The loop for F_PRESSURE, behind a segment that ends at `last`.
pub pressure_from : ℕ → ℕ → List Segment → ℕ
pressure_from ack last [] = 0
pressure_from ack last (p ∷ ps) =
    let later = pressure_from ack p.seq_end ps in
    let own =
      if ltb (header_size p.header) (size_of p) then (p.seq_end + 2 ^ 32 - last) % 2 ^ 32 else 0 in
    if not (p.seq_end == ack) && not_before p.seq_end ack then 0 else (own + later) % 2 ^ 32

-- F_PRESSURE
pub pressure : Connection → ℕ
unfolding pressure_from
pressure c =
    let last : ℕ = elim c.inqueue [ [] ↦ 0 | p ∷ ps ↦ p.header.seq ] in
    pressure_from c.ack last c.inqueue

-- F_CONNECTION_STATUS
abbrev pub status_number : TcpStatus → ℕ
status_number closed = 0
status_number open_ = 1
status_number listen = 2
status_number syn_rcvd = 3
status_number syn_sent = 3
status_number fin_rcvd = 3
status_number fin_sent = 3

-- `service_pipe_get_flag`: the number, and the error that it sets.
pub tcp_get_flag : PipeFlag → Connection → ℕ × Option Errno
unfolding pressure
tcp_get_flag f_pressure c = (pressure c, none)
tcp_get_flag f_readable c = (bit (not (pressure c == 0)), none)
tcp_get_flag f_writable c = (bit (can_send c.status), none)
tcp_get_flag f_ipc_signal c = (bit c.signal, none)
tcp_get_flag f_dest_ip c = (c.dest_ip, none)
tcp_get_flag f_src_ip c = (c.dest_ip, none)
tcp_get_flag f_dest_port c = (c.dest_port, none)
tcp_get_flag f_src_port c = (elim c.inqueue [ [] ↦ c.dest_port | p ∷ ps ↦ p.header.src_port ], none)
tcp_get_flag f_my_port c = (c.port, none)
tcp_get_flag f_connection_status c = (status_number c.status, none)
tcp_get_flag f_flush c = (0, some einval)
tcp_get_flag f_other c = (0, some einval)

-- What becomes of a connection while `tcp_connect` and `tcp_disconnect` wait, and the address of the
-- interface to an address.
pub record Network : Type 0 where
  pub connected : Connection → Connection
  pub disconnected : Connection → Connection
  pub my_ip : ℕ → ℕ

-- A connection that has an address and a port to go to is started.
abbrev pub reconnect : ℕ → Network → Connection → Connection
reconnect now w c =
    if not (c.dest_ip == 0) && not (c.dest_port == 0)
    then w.connected (tcp_connect now (w.my_ip c.dest_ip) c)
    else c

-- `service_pipe_set_flag` for a caller of the process group `group`: the error, and the connection.
pub tcp_set_flag : ℕ → Network → ℕ → PipeFlag → ℕ → Connection → Option Errno × Connection
unfolding tcp_disconnect
tcp_set_flag now w group f_flush value c = (none, c)
tcp_set_flag now w group f_ipc_signal value c =
    (none, record c { owner = group; signal = not (value == 0) })
tcp_set_flag now w group f_dest_ip value c = (
  none,
  reconnect now w (record (tcp_disconnect now w.disconnected c) { dest_ip = value % 2 ^ 32 }),
)
tcp_set_flag now w group f_dest_port value c = (
  none,
  reconnect now w (record (tcp_disconnect now w.disconnected c) { dest_port = value % 2 ^ 16 }),
)
tcp_set_flag now w group f_my_port value c =
    (none, reconnect now w (record (tcp_disconnect now w.disconnected c) { port = value % 2 ^ 16 }))
tcp_set_flag now w group f_connection_status value c =
    let off = tcp_disconnect now w.disconnected c in
    (none, if value == 0 then off else if value == 2 then record off { status = listen } else c)
tcp_set_flag now w group f_pressure value c = (some einval, c)
tcp_set_flag now w group f_readable value c = (some einval, c)
tcp_set_flag now w group f_writable value c = (some einval, c)
tcp_set_flag now w group f_src_ip value c = (some einval, c)
tcp_set_flag now w group f_src_port value c = (some einval, c)
tcp_set_flag now w group f_other value c = (some einval, c)
