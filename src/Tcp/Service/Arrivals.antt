-- ===== src/Tcp/Service/Arrivals.antt =====
-- Datagrams that come in, one after the other.
use muxomucota.Base.{
  ℕ, ◌^◌, ◌≤◌, ◌<◌, ◌≡◌, ◌≢◌, Bool, true, false, List, [], ◌∷◌, length, All, Bool-cases, inl, inr,
}
use muxomucota.Base.Outcome.{ok}
use muxomucota.Tcp.{
  tcp_fin, tcp_syn, tcp_rst, has_flag, TcpHeader, TcpStatus, closed, listen, syn_rcvd, syn_sent,
  open_, fin_rcvd, fin_sent, Segment, Connection,
}
use muxomucota.Tcp.Queues.{reaction, status_fin}
use muxomucota.Tcp.Service.Incoming.{Datagram, tcp_incoming_all, receive_segment}
use muxomucota.Tcp.Service.Handshake.{receive_segment-listen}
use muxomucota.Tcp.Service.Invariant.{flag_byte, AllKept, tcp_incoming_all_keeps}

All-implies {ℓ κ m} :
    {A : Type ℓ} {P : A → Type κ} {Q : A → Type m}
    → ((a : A) → P a → Q a)
    → (xs : List A) → All P xs
    → All Q xs
All-implies f [] h = tt
All-implies f (x ∷ xs) h = (f x h.0, All-implies f xs h.1)

-- A segment without TCP_RST, and one that does not have TCP_SYN either.
abbrev NoReset : Segment → Type 0
NoReset p = has_flag tcp_rst p.header.flags ≡ false

abbrev NoSyn : Segment → Type 0
NoSyn p = NoReset p × (has_flag tcp_syn p.header.flags ≡ false)

-- No segment with TCP_RST is in the queue of a connection, and any datagrams come in that are not shorter than
-- a header. The loop of `incoming` gets through them without a failed assertion or an access outside
-- of a block, and again no segment with TCP_RST is in a queue.
pub tcp_incoming_all-NoReset :
    (now : ℕ) (ds : List Datagram) (cs : List Connection)
    → All (λ d. 20 ≤ length d.content) ds
    → All (λ c. All NoReset c.inqueue) cs
    → (cs' : List Connection) × (tcp_incoming_all now ds cs ≡ ok cs')
      × All (λ c. All NoReset c.inqueue) cs'
tcp_incoming_all-NoReset now ds cs long quiet =
    let (cs', e, k) =
      tcp_incoming_all_keeps NoReset (λ s. Unit) (λ p n. n) (λ now p fin c n u. tt) tt now ds cs
        (All-implies (λ d l. (l, λ p f n. rw f n)) ds long)
        (All-implies (λ c q. (q, tt)) cs quiet) in
    (cs', e, All-implies (λ c k. k.0) cs' k)

status_fin_closed : (s : TcpStatus) → s ≢ open_ → status_fin s ≢ open_
status_fin_closed fin_sent h = λ e. cc
status_fin_closed closed h = λ e. cc
status_fin_closed open_ h = λ e. cc
status_fin_closed listen h = λ e. cc
status_fin_closed syn_rcvd h = λ e. cc
status_fin_closed syn_sent h = λ e. cc
status_fin_closed fin_rcvd h = λ e. cc

reaction-NoSyn :
    (now : ℕ) (p : Segment) (fin : Bool) (c : Connection)
    → NoSyn p
    → c.status ≢ open_
    → (reaction now p.header.flags fin c).1.status ≢ open_
reaction-NoSyn now p fin c n shut = elim (Bool-cases (has_flag tcp_fin p.header.flags)) [
  | inl y ↦ rw (n.1, y) (status_fin_closed c.status shut)
  | inr m ↦ rw (n.1, m) shut
]

-- Datagrams without TCP_SYN do not open a connection.
pub tcp_incoming_all-NoSyn :
    (now : ℕ) (ds : List Datagram) (cs : List Connection)
    → All (λ d. (20 ≤ length d.content) × (has_flag tcp_syn (flag_byte d.content) ≡ false)) ds
    → AllKept NoSyn (λ s. s ≢ open_) cs
    → (cs' : List Connection) × (tcp_incoming_all now ds cs ≡ ok cs')
      × AllKept NoSyn (λ s. s ≢ open_) cs'
tcp_incoming_all-NoSyn now ds cs quiet shut =
    tcp_incoming_all_keeps NoSyn (λ s. s ≢ open_) (λ p n. n.0) reaction-NoSyn (λ e. cc) now ds cs
      (All-implies (λ d l. (l.0, λ p f n. (rw f n, rw f l.1))) ds quiet) shut

-- A connection with an empty queue listens, and a header of 20 bytes comes in for it with TCP_SYN,
-- without TCP_RST. It gets to the state in which it waits for an acknowledgement. However many
-- datagrams come in behind that, none shorter than a header and none with TCP_SYN, it does not get to
-- the open state, whatever they acknowledge.
pub listener_never_opens :
    (now : ℕ) (h : TcpHeader) (ds : List Datagram) (c : Connection)
    → c.status ≡ listen
    → c.inqueue ≡ []
    → has_flag tcp_syn h.flags ≡ true
    → has_flag tcp_rst h.flags ≡ false
    → h.hdrlen ≡ 0x50
    → h.seq < 2 ^ 32
    → h.dest_port ≡ c.port
    → All (λ d. (20 ≤ length d.content) × (has_flag tcp_syn (flag_byte d.content) ≡ false)) ds
    → (c' : Connection) × (cs : List Connection) × (receive_segment now h [] c ≡ ok c')
      × (c'.status ≡ syn_rcvd)
      × (tcp_incoming_all now ds (c' ∷ []) ≡ ok cs)
      × All (λ d. d.status ≢ open_) cs
listener_never_opens now h ds c listens idle syn no_rst hdr seq port quiet =
    let (c', got, empty, answered) =
      receive_segment-listen now h c idle syn no_rst hdr seq port listens in
    let shut : (All NoSyn c'.inqueue) × (c'.status ≢ open_) =
      (rw empty tt, rw answered (λ e. cc)) in
    let (cs, later, k) = tcp_incoming_all-NoSyn now ds (c' ∷ []) quiet (shut, tt) in
    (c', cs, got, answered, later, All-implies (λ d x. x.1) cs k)
