-- ===== src/Udp/Flags.antt =====
-- The flags of a pipe of the service, src/progs/common/udp/udp.c.
use muxomucota.Base.{ℕ, ◌%◌, ◌^◌, not, Option, none, some, [], ◌∷◌, length, ◌==◌, if◌then◌else◌}
use muxomucota.Base.Outcome.{Outcome, ok, fault, ◌>>=◌}
use muxomucota.Ip.Pipes.{Errno, einval, bit}
use muxomucota.Tcp.Service.Flags.{
  PipeFlag, f_pressure, f_readable, f_writable, f_flush, f_ipc_signal, f_dest_ip, f_src_ip,
  f_dest_port, f_src_port, f_my_port, f_connection_status, f_other,
}
use muxomucota.Udp.{UdpPacket, UdpFile}

-- A number of the first packet in the queue, 0 if there is none.
abbrev pub first_packet : (UdpPacket → ℕ) → UdpFile → ℕ
first_packet n f = elim f.inqueue [ [] ↦ 0 | p ∷ ps ↦ n p ]

-- `service_pipe_get_flag`: the number, and the error that it sets.
pub udp_get_flag : PipeFlag → UdpFile → ℕ × Option Errno
udp_get_flag f_pressure f = (first_packet (λ p. length p.content) f, none)
udp_get_flag f_readable f = (first_packet (λ p. 1) f, none)
udp_get_flag f_writable f = (1, none)
udp_get_flag f_ipc_signal f = (bit f.signal, none)
udp_get_flag f_dest_ip f = (f.dest_ip, none)
udp_get_flag f_src_ip f = (first_packet (λ p. p.src_ip) f, none)
udp_get_flag f_dest_port f = (f.dest_port, none)
udp_get_flag f_src_port f = (first_packet (λ p. p.src_port) f, none)
udp_get_flag f_my_port f = (f.port, none)
udp_get_flag f_flush f = (0, some einval)
udp_get_flag f_connection_status f = (0, some einval)
udp_get_flag f_other f = (0, some einval)

-- F_FLUSH. Of an empty queue it reads the first packet through the null pointer.
abbrev pub flush_packet : UdpFile → Outcome UdpFile
flush_packet f = elim f.inqueue [ [] ↦ fault | p ∷ ps ↦ ok (record f { inqueue = ps }) ]

-- `service_pipe_set_flag` for a caller of the process group `group`: the error, and the file.
pub udp_set_flag : ℕ → PipeFlag → ℕ → UdpFile → Outcome (Option Errno × UdpFile)
udp_set_flag group f_flush value f =
    let flushed = flush_packet f >>= λ f'. ok (none, f') in
    if value == 1 then flushed else ok (none, f)
udp_set_flag group f_ipc_signal value f =
    ok (none, record f { owner = group; signal = not (value == 0) })
udp_set_flag group f_dest_ip value f = ok (none, record f { dest_ip = value % 2 ^ 32 })
udp_set_flag group f_dest_port value f = ok (none, record f { dest_port = value % 2 ^ 16 })
udp_set_flag group f_my_port value f = ok (none, record f { port = value % 2 ^ 16 })
udp_set_flag group f_pressure value f = ok (some einval, f)
udp_set_flag group f_readable value f = ok (some einval, f)
udp_set_flag group f_writable value f = ok (some einval, f)
udp_set_flag group f_src_ip value f = ok (some einval, f)
udp_set_flag group f_src_port value f = ok (some einval, f)
udp_set_flag group f_connection_status value f = ok (some einval, f)
udp_set_flag group f_other value f = ok (some einval, f)
