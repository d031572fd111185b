-- ===== src/Stack/Segments.antt =====
-- The headers of the segments that the stack makes: what their receiver reads back.
use tiny_cp.Base.{
  ℕ, ◌^◌, ◌<◌, ◌≤◌, ◌≡◌, refl, ◌∙◌, arith, ◌==◌, if◌then◌else◌, Bool, true, false, List, length,
  htons, htons-htons, htons-lt, htonl-htonl, htonl-lt,
}
use tiny_cp.Tcb.{Tcb}
use tiny_cp.Tcp.Header
use tiny_cp.Tcp.Header.{TcpHeader, flag, data_offset}
use tiny_cp.Tcp.Mirror.{IsValid}
use tiny_cp.Tcp.Flags.{flag-set_flag}
use tiny_cp.Stack.Output.{Control, ack_only, free_window, writer_header, control_header}
use tiny_cp.Address.{IsEndpoint}
use tiny_cp.Stack.Delivery.{IsSegment}

-- What a header says to its receiver.
pub record Says (h : TcpHeader) (tcb : Tcb) (c : Control) (seq acked : ℕ) : Type 0 where
  pub header_in : IsValid h
  pub offset : data_offset h ≡ 5
  pub syn : flag 1 h ≡ c.syn
  pub ack : flag 4 h ≡ c.ack
  pub rst : flag 2 h ≡ c.rst
  pub fin : flag 0 h ≡ c.fin
  pub from_port : Header.source_port_ntoh h ≡ tcb.src_address.port
  pub to_port : Header.dest_port_ntoh h ≡ tcb.dst_address.port
  pub seq_num : Header.seq_num_ntoh h ≡ seq
  pub ack_num : Header.ack_num_ntoh h ≡ acked
  pub window : Header.window_ntoh h ≡ free_window tcb

free_window-lt : (tcb : Tcb) → free_window tcb < 2 ^ 16
unfolding free_window
free_window-lt tcb = omega arith

-- The data offset and the six control bits lie in one word.
flag_of_control : (k : ℕ) (g h : TcpHeader) → g.control ≡ h.control → flag k g ≡ flag k h
unfolding flag
flag_of_control k g h e = rw e refl

offset_of_control : (g h : TcpHeader) → g.control ≡ h.control → data_offset g ≡ data_offset h
unfolding data_offset
offset_of_control g h e = rw e refl

-- The header with ports before its control bits are set.
started : Tcb → TcpHeader
started tcb = Header.set_data_offset 5 (
    Header.set_dest_port tcb.dst_address.port
      (Header.set_source_port tcb.src_address.port Header.zero_header))

-- The parts of `Says` that no setter of a control bit changes.
IsStarted : TcpHeader → Tcb → Type 0
IsStarted h tcb =
    (data_offset h ≡ 5)
    × (Header.source_port_ntoh h ≡ tcb.src_address.port)
    × (Header.dest_port_ntoh h ≡ tcb.dst_address.port)
    × (h.source_port < 2 ^ 16)
    × (h.dest_port < 2 ^ 16)
    × (h.checksum ≡ 0)
    × (h.urgent_pointer ≡ 0)

started-IsStarted :
    (tcb : Tcb)
    → IsEndpoint tcb.src_address
    → IsEndpoint tcb.dst_address
    → IsStarted (started tcb) tcb
unfolding IsStarted started data_offset Header.set_data_offset Header.set_dest_port
    Header.set_source_port Header.source_port_ntoh Header.dest_port_ntoh htons
started-IsStarted tcb v w =
    (refl, htons-htons _ v.port_in, htons-htons _ w.port_in, htons-lt _, htons-lt _, refl, refl)

flag-started :
    (tcb : Tcb)
    → (flag 0 (started tcb) ≡ false)
      × (flag 1 (started tcb) ≡ false)
      × (flag 2 (started tcb) ≡ false)
unfolding flag started Header.set_data_offset Header.set_dest_port Header.set_source_port htons
flag-started tcb = (refl, refl, refl)

IsStarted-set_flag :
    (k : ℕ) (b : Bool) (h : TcpHeader) (tcb : Tcb)
    → k < 6
    → IsStarted h tcb
    → IsStarted (Header.set_flag k b h) tcb
unfolding IsStarted Header.set_flag Header.source_port_ntoh Header.dest_port_ntoh
IsStarted-set_flag k b h tcb lt (offset, from, to, sp, dp, check, urgent) =
    ((flag-set_flag 0 k b h (omega arith) lt).1 ∙ offset, from, to, sp, dp, check, urgent)

-- The numbers and the window, put into a header whose control bits stand.
numbered : Tcb → TcpHeader → ℕ → ℕ → TcpHeader
numbered tcb h seq acked =
    Header.set_window (free_window tcb) (Header.set_ack_num acked (Header.set_seq_num seq h))

numbered-Says :
    (tcb : Tcb) (h : TcpHeader) (c : Control) (seq acked : ℕ)
    → seq < 2 ^ 32
    → acked < 2 ^ 32
    → IsStarted h tcb
    → h.control < 2 ^ 16
    → flag 1 h ≡ c.syn
    → flag 4 h ≡ c.ack
    → flag 2 h ≡ c.rst
    → flag 0 h ≡ c.fin
    → Says (numbered tcb h seq acked) tcb c seq acked
unfolding IsStarted numbered Header.set_window Header.set_ack_num Header.set_seq_num
    Header.source_port_ntoh Header.dest_port_ntoh Header.seq_num_ntoh Header.ack_num_ntoh
    Header.window_ntoh
numbered-Says tcb h c seq acked seq_in ack_in (offset, from, to, sp, dp, zero_check, zero_urgent)
      control_in syn ack rst fin =
    let out = numbered tcb h seq acked in
    let same : (k : ℕ) → flag k out ≡ flag k h = λ k. flag_of_control k out h refl in
    record {
      header_in = record {
        source_port_in = sp;
        dest_port_in = dp;
        seq_num_in = htonl-lt _;
        ack_num_in = htonl-lt _;
        control_in = control_in;
        window_in = htons-lt _;
        checksum_in = omega arith;
        urgent_pointer_in = omega arith;
      };
      offset = offset_of_control out h refl ∙ offset;
      syn = same 1 ∙ syn;
      ack = same 4 ∙ ack;
      rst = same 2 ∙ rst;
      fin = same 0 ∙ fin;
      from_port = from;
      to_port = to;
      seq_num = htonl-htonl seq seq_in;
      ack_num = htonl-htonl acked ack_in;
      window = htons-htons (free_window tcb) (free_window-lt tcb);
    }

control-set_flag-lt : (k : ℕ) (b : Bool) (h : TcpHeader) → (Header.set_flag k b h).control < 2 ^ 16
unfolding Header.set_flag
control-set_flag-lt k b h = htons-lt _

-- Every control segment says what its caller asks for: the four control bits, the two numbers, the
-- ports of the block, and the free space of the receive buffer as its window. Its data offset is 5,
-- and its fields are in range.
pub control_header-Says :
    (tcb : Tcb) (c : Control) (seq acked : ℕ)
    → IsEndpoint tcb.src_address
    → IsEndpoint tcb.dst_address
    → seq < 2 ^ 32
    → acked < 2 ^ 32
    → Says (control_header tcb c seq acked 65535) tcb c seq acked
unfolding control_header started numbered
control_header-Says tcb c seq acked v w seq_in ack_in =
    let h0 = started tcb in
    let h1 = Header.set_syn c.syn h0 in
    let h2 = Header.set_ack c.ack h1 in
    let h3 = Header.set_rst c.rst h2 in
    let h4 = Header.set_fin c.fin h3 in
    let s1 = IsStarted-set_flag 1 c.syn h0 tcb (omega arith) (started-IsStarted tcb v w) in
    let s2 = IsStarted-set_flag 4 c.ack h1 tcb (omega arith) s1 in
    let s3 = IsStarted-set_flag 2 c.rst h2 tcb (omega arith) s2 in
    let s4 = IsStarted-set_flag 0 c.fin h3 tcb (omega arith) s3 in
    let kept : (k j : ℕ) (b : Bool) (h : TcpHeader)
        → k < 6
        → j < 6
        → flag j (Header.set_flag k b h) ≡ (if k == j then b else flag j h) =
      λ k j b h hk hj. (flag-set_flag j k b h hj hk).0 in
    numbered-Says tcb h4 c seq acked seq_in ack_in s4 (control-set_flag-lt 0 c.fin h3)
      (kept 0 1 c.fin h3 (omega arith) (omega arith)
        ∙ kept 2 1 c.rst h2 (omega arith) (omega arith)
        ∙ kept 4 1 c.ack h1 (omega arith) (omega arith)
        ∙ kept 1 1 c.syn h0 (omega arith) (omega arith))
      (kept 0 4 c.fin h3 (omega arith) (omega arith)
        ∙ kept 2 4 c.rst h2 (omega arith) (omega arith)
        ∙ kept 4 4 c.ack h1 (omega arith) (omega arith))
      (kept 0 2 c.fin h3 (omega arith) (omega arith)
        ∙ kept 2 2 c.rst h2 (omega arith) (omega arith))
      (kept 0 0 c.fin h3 (omega arith) (omega arith))

-- A data segment says that it is one: of the control bits in question only `ACK` is set, and its
-- numbers are the given one and the next that the block expects.
pub writer_header-Says :
    (tcb : Tcb) (seq : ℕ)
    → IsEndpoint tcb.src_address
    → IsEndpoint tcb.dst_address
    → seq < 2 ^ 32
    → tcb.rcv.nxt < 2 ^ 32
    → Says (writer_header tcb seq) tcb ack_only seq tcb.rcv.nxt
unfolding writer_header started numbered
writer_header-Says tcb seq v w seq_in ack_in =
    let h0 = started tcb in
    let (no_fin, no_syn, no_rst) = flag-started tcb in
    let kept : (j : ℕ)
        → j < 6
        → flag j (Header.set_ack true h0) ≡ (if 4 == j then true else flag j h0) =
      λ j hj. (flag-set_flag j 4 true h0 hj (omega arith)).0 in
    numbered-Says tcb (Header.set_ack true h0) ack_only seq tcb.rcv.nxt seq_in ack_in
      (IsStarted-set_flag 4 true h0 tcb (omega arith) (started-IsStarted tcb v w))
      (control-set_flag-lt 4 true h0) (kept 1 (omega arith) ∙ no_syn) (kept 4 (omega arith))
      (kept 2 (omega arith) ∙ no_rst) (kept 0 (omega arith) ∙ no_fin)

-- So both are segments between the endpoints of the block.
pub Says-IsSegment :
    {h : TcpHeader} {tcb : Tcb} {c : Control} {seq acked : ℕ} (payload : List ℕ)
    → Says h tcb c seq acked
    → length payload ≤ 65495
    → IsSegment tcb.src_address tcb.dst_address (record { header = h; payload = payload })
Says-IsSegment payload says fits = record {
  header_in = says.header_in;
  offset = says.offset;
  from_port = says.from_port;
  to_port = says.to_port;
  fits = fits;
}
