-- ===== src/Netio.antt =====
-- agent/netio.c: the filter on the raw socket, a program of classic BPF, and the call-back of the
-- socket. Sockets and events themselves are the system's.
pub mod Accept
use Prim.Native.Nat.{bit_and}
use tao_p4code.Base.{
  ℕ, zero, suc, ◌+◌, ◌*◌, ◌%◌, Option, none, some, List, [], ◌∷◌, ◌==◌, if◌then◌else◌, get_elem?,
}

-- The instructions of classic BPF that the filter is written in. `jeq_k k jt jf` is
-- `BPF_JUMP(BPF_JMP|BPF_JEQ|BPF_K, k, jt, jf)`: it skips `jt` or `jf` instructions.
pub data Insn : Type 0 where
  ld_b_abs ld_h_abs ldx_b_msh ld_h_ind ret_k : ℕ → Insn
  jeq_k jset_k : ℕ → ℕ → ℕ → Insn

abbrev pub ipproto_udp : ℕ
ipproto_udp = 17

abbrev pub vxlan_port : ℕ
vxlan_port = 4789

abbrev pub accept_all : ℕ
accept_all = 0x7fffffff

unfoldable pub insns : List Insn
insns =
    ld_b_abs 9
    ∷ jeq_k ipproto_udp 0 6
    ∷ ld_h_abs 6
    ∷ jset_k 0x1fff 4 0
    ∷ ldx_b_msh 0
    ∷ ld_h_ind 2
    ∷ jeq_k vxlan_port 0 1
    ∷ ret_k accept_all
    ∷ ret_k 0
    ∷ []

-- Two bytes of the packet in network order.
abbrev pub half_of : Option ℕ → Option ℕ → Option ℕ
half_of (some hi) (some lo) = some (hi * 256 + lo)
half_of _ _ = none

abbrev pub load_half : List ℕ → ℕ → Option ℕ
load_half pkt k = half_of (get_elem? pkt k) (get_elem? pkt (k + 1))

-- What follows a load: one beyond the packet rejects it.
abbrev pub load_then : Option ℕ → (ℕ → ℕ) → ℕ
load_then none next = 0
load_then (some v) next = next v

-- The meaning of a program, as BPF documents it: the number of bytes of the packet that are kept.
-- The second argument counts the instructions that a jump has still to pass over, `a` is the
-- accumulator and `x` the index register.
unfoldable pub bpf_run : List ℕ → ℕ → List Insn → (a x : ℕ) → ℕ
bpf_run pkt skip [] a x = 0
bpf_run pkt (suc skip) (i ∷ code) a x = bpf_run pkt skip code a x
bpf_run pkt zero (ld_b_abs k ∷ code) a x = load_then (get_elem? pkt k) λ v. bpf_run pkt 0 code v x
bpf_run pkt zero (ld_h_abs k ∷ code) a x = load_then (load_half pkt k) λ v. bpf_run pkt 0 code v x
bpf_run pkt zero (ld_h_ind k ∷ code) a x =
    load_then (load_half pkt (x + k)) λ v. bpf_run pkt 0 code v x
bpf_run pkt zero (ldx_b_msh k ∷ code) a x =
    load_then (get_elem? pkt k) λ v. bpf_run pkt 0 code a (4 * (v % 16))
bpf_run pkt zero (jeq_k k jt jf ∷ code) a x = bpf_run pkt (if a == k then jt else jf) code a x
bpf_run pkt zero (jset_k k jt jf ∷ code) a x =
    bpf_run pkt (if bit_and a k == 0 then jf else jt) code a x
bpf_run pkt zero (ret_k k ∷ code) a x = k

-- What the filter, attached to the socket, keeps of a packet.
unfoldable pub udp_filter : List ℕ → ℕ
unfolding bpf_run insns
udp_filter pkt = bpf_run pkt 0 insns 0 0

-- The event of a call-back: `EV_READ`, or any other.
pub data EventKind : Type 0 where
  ev_read ev_other : EventKind

-- `netio_cb`: the receive function of the context is called where there is one. The result is the
-- new state.
abbrev pub netio_cb : {S : Type 0} → EventKind → Option (S → S) → S → S
netio_cb ev_read (some netio_rx) s = netio_rx s
netio_cb ev_read none s = s
netio_cb ev_other rx s = s
