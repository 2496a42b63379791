-- ===== src/Pmd.antt =====
-- agent/pmd.c: the contexts of the packet threads, the state of the thread, and the overhead of a
-- tunnel. What a thread does with packets is not modelled.
pub mod Contexts
use tao_p4code.Base.{
  ℕ, ℤ, pos, zero, suc, ◌+◌, Bool, true, false, Option, none, some, is_neg, if◌then◌else◌, leb,
  update,
}
use tao_p4code.Types.{EncapType, invalid, vxlan, tgre, encap_max, TunnelInfo}

abbrev pub ntb_pmd_thr_max : ℕ
ntb_pmd_thr_max = 8

-- `pmd_thr_stat_t`.
pub data ThrStat : Type 0 where
  pts_init pts_running pts_idel : ThrStat

-- `ntb_pmd_ctx_t`, without the handles of the memory pool, the events and the lock.
pub record PmdCtx : Type 0 where
  pub msize : ℕ
  pub pid : ℕ
  pub udp_sock : ℕ
  pub ip_pktid : ℕ
  pub is_valid : ℕ

-- What `calloc` gives.
abbrev pub zero_pmd_ctx : PmdCtx
zero_pmd_ctx = record { msize = 0; pid = 0; udp_sock = 0; ip_pktid = 0; is_valid = 0 }

-- `ntb_pmd_ctxs`, an array of NTB_PMD_THR_MAX pointers, and `ntb_pmd_thr_stat`.
pub record Threads : Type 0 where
  pub ctxs : ℕ → Option PmdCtx
  pub stat : ThrStat

-- The loop of ntb_pmd_ctx_create over `n` slots from `i` on: where it stops.
pub free_slot : (ℕ → Option PmdCtx) → ℕ → ℕ → ℕ
free_slot ctxs zero i = i
free_slot ctxs (suc n) i = elim (ctxs i) [ none ↦ i | some x ↦ free_slot ctxs n (i + 1) ]

-- The second part, after a free slot is found. `memory` says whether `calloc` succeeds.
abbrev pub ctx_register : Bool → ℕ → Threads → Option PmdCtx × Threads
ctx_register false pid s = (none, s)
ctx_register true pid s = (
  some (record zero_pmd_ctx { pid = pid }),
  record s { ctxs = update s.ctxs pid (some (record zero_pmd_ctx { pid = pid })) },
)

pub ntb_pmd_ctx_create : Bool → Threads → Option PmdCtx × Threads
unfolding free_slot
ntb_pmd_ctx_create memory s =
    let pid = free_slot s.ctxs ntb_pmd_thr_max 0 in
    if leb ntb_pmd_thr_max pid then (none, s) else ctx_register memory pid s

-- The loop of ntb_pmd_thread_walk: the call-back works on what its arguments point to.
module _ {S : Type 0} (cb : PmdCtx → S → ℤ × S) where
  walk_loop : (ℕ → Option PmdCtx) → ℕ → ℕ → S → S
  walk_loop ctxs zero i a = a
  walk_loop ctxs (suc n) i a = elim (ctxs i) [
    | none ↦ walk_loop ctxs n (i + 1) a
    | some x ↦
        let (ret, a') = cb x a in
        let rest = walk_loop ctxs n (i + 1) a' in if is_neg ret then a' else rest
  ]

  pub ntb_pmd_thread_walk : Threads → S → ℤ × S
  unfolding walk_loop
  ntb_pmd_thread_walk s a = (pos 0, walk_loop s.ctxs ntb_pmd_thr_max 0 a)

abbrev pub ntb_pmd_thr_stat_set : ThrStat → Threads → Threads
ntb_pmd_thr_stat_set stat s = record s { stat = stat }

abbrev pub ntb_api_ntb_pmd_thread_ready_get : Threads → Bool
ntb_api_ntb_pmd_thread_ready_get s = elim s.stat [
  | pts_running ↦ true
  | pts_init ↦ false
  | pts_idel ↦ false
]

abbrev pub ether_need : EncapType → Bool
ether_need vxlan = true
ether_need invalid = false
ether_need tgre = false
ether_need encap_max = false

abbrev pub ip_tunnel_inner_ether_need : TunnelInfo → Bool
ip_tunnel_inner_ether_need t = ether_need t.type

-- The headers of DPDK: Ethernet 14 bytes, VXLAN 8, UDP 8, IPv4 20, GRE 4.
abbrev pub encap_size : EncapType → ℕ
encap_size vxlan = 14 + 8 + 8 + 20
encap_size tgre = 4 + 20
encap_size invalid = 0
encap_size encap_max = 0

abbrev pub ip_tunnel_encap_size : TunnelInfo → ℕ
ip_tunnel_encap_size t = encap_size t.type
