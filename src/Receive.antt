-- ===== src/Receive.antt =====
-- agent/zdw_agent/pmd.c: what a packet thread does with a packet. Here are the packet buffers of
-- DPDK as an interface, the state that the receive functions write, and the lookups that they call.
-- Forward and Steps hold the receive functions themselves.
pub mod Forward
pub mod Steps
pub mod Frame
pub mod Parse
pub mod Decide
use tao_p4code.Base.{
  ℕ, ◌+◌, ◌*◌, ◌<◌, ◌≤◌, ◌≡◌, ◌↔◌, ◌^◌, ℤ, pos, negsuc, Bool, Option, none, some, List, ◌++◌, [],
  ◌∷◌, if◌then◌else◌, get_elem?, length, update, inc32,
}
use tao_p4code.Types.{Mac, TunnelInfo, zero_tunnel_info, zero_mac, TunnelType, FibRes, FibNhop}
use tao_p4code.Errno.{enoent}
use tao_p4code.World.{Env, World, Run, ok, fault, M}
use tao_p4code.Route.Result.{fib_res_get}
use tao_p4code.Route.Prefix.{mpath_load}
use tao_p4code.Tunnel.{map_key}
use tao_p4code.Vrf.Table.{ntb_vrf_dp_get_by_id}

-- `rte_mbuf` and the conversions of byte order. `byte m k` is the byte at `rte_pktmbuf_mtod` + k,
-- `none` beyond the buffer; `adj` and `prepend` are `rte_pktmbuf_adj` and `rte_pktmbuf_prepend`,
-- `none` where they give NULL. `received` is what `recv` writes at `rte_pktmbuf_mtod`, and `set_len`
-- sets both lengths; `room` is the space behind the headroom. `host16` and `host32` are what a load
-- gives of bytes in memory.
pub record PmdLib (env : Env) : Type 1 where
  pub Mbuf : Type 0
  pub byte : Mbuf → ℕ → Option ℕ
  pub data_len : Mbuf → ℕ
  pub room : Mbuf → ℕ
  pub rss : Mbuf → ℕ
  pub received : Mbuf → List ℕ → Mbuf
  pub set_len : Mbuf → ℕ → Mbuf
  pub adj : Mbuf → ℕ → Option Mbuf
  pub prepend : Mbuf → ℕ → Option Mbuf
  pub host16 : ℕ → ℕ → ℕ
  pub host32 : ℕ → ℕ → ℕ → ℕ → ℕ
  pub be_to_cpu_16 : ℕ → ℕ
  pub cpu_to_be_32 : ℕ → ℕ
  pub byte-received :
      (m : Mbuf) (bytes : List ℕ) (n k b : ℕ)
      → length bytes ≤ room m
      → get_elem? bytes k ≡ some b
      → byte (set_len (received m bytes) n) k ≡ some b
  pub data_len-set_len : (m : Mbuf) (n : ℕ) → data_len (set_len m n) ≡ n
  pub adj_some :
      (m : Mbuf) (n : ℕ)
      → n ≤ data_len m
      → (m' : Mbuf) × (adj m n ≡ some m')
        × (n + data_len m' ≡ data_len m)
        × ((k : ℕ) → byte m' k ≡ byte m (n + k))
  pub adj_none : (m : Mbuf) (n : ℕ) → data_len m < n → adj m n ≡ none
  pub prepend-adj :
      (m m' : Mbuf) (n k : ℕ) → adj m n ≡ some m' → k ≤ n → (u : Mbuf) × (prepend m' k ≡ some u)
  pub host16-cpu_to_be :
      (a b n : ℕ)
      → a < 256
      → b < 256
      → n < 2 ^ 16
      → (host16 a b ≡ env.cpu_to_be_16 n) ↔ (a * 256 + b ≡ n)
  pub be_to_cpu-host16 : (a b : ℕ) → a < 256 → b < 256 → be_to_cpu_16 (host16 a b) ≡ a * 256 + b
  pub be_to_cpu-host32 :
      (a b c d : ℕ)
      → a < 256
      → b < 256
      → c < 256
      → d < 256
      → env.be_to_cpu (host32 a b c d) ≡ ((a * 256 + b) * 256 + c) * 256 + d

-- `struct key_value`, the type of `key_value_info`.
pub record KeyValue : Type 0 where
  pub vrf_id : ℤ
  pub vni : ℕ
  pub inner_src_ip : ℕ
  pub inner_dst_ip : ℕ
  pub next_hop : ℕ
  pub vni_encp : ℕ
  pub outer_src_mac : Mac
  pub outer_dst_mac : Mac
  pub outer_src_ip : ℕ
  pub outer_dst_ip : ℕ
  pub inner_src_mac : Mac
  pub inner_dst_mac : Mac

abbrev pub outer_fake_smac : Mac
outer_fake_smac = 0x11 ∷ 0x22 ∷ 0x33 ∷ 0x44 ∷ 0x55 ∷ 0x66 ∷ []

abbrev pub outer_fake_dmac : Mac
outer_fake_dmac = 0x11 ∷ 0x22 ∷ 0x33 ∷ 0x44 ∷ 0x55 ∷ 0x67 ∷ []

-- `struct ntb_mbuf_metadata`, the private area of a packet.
pub record Metadata : Type 0 where
  pub in_tunnel_info : TunnelInfo
  pub vrf_dp : Option ℕ

abbrev pub zero_metadata : Metadata
zero_metadata = record { in_tunnel_info = zero_tunnel_info; vrf_dp = none }

-- The events that live code counts, by their numbers in `foreach_swf_evt_type`.
abbrev pub vxlan_tx_mbuf_prepare_nospace : ℕ
vxlan_tx_mbuf_prepare_nospace = 7

abbrev pub overlay_ip_forward_noarp : ℕ
overlay_ip_forward_noarp = 17

-- What the receive functions write: `key_value_info`, the counters at `cur_thr_stats` (`none` where
-- that pointer is NULL), the calls of `neigh_probe_xmit` (VRF and gateway), which no file of the
-- agent defines, whether `event_loopbreak` was called, the buffers taken from the pool and not given
-- back, and the holds on the lock for reading.
pub record Rx : Type 0 where
  pub info : KeyValue
  pub stats : Option (ℕ → ℕ)
  pub probes : List (ℕ × ℕ)
  pub loopbreak : Bool
  pub mbufs : ℕ
  pub readers : ℕ

infixl 5 ◌>>=◌
abbrev pub ◌>>=◌ : {A B : Type 0} → Run A → (A → Run B) → Run B
r >>= f = elim r [ fault ↦ fault | ok a ↦ f a ]

-- What a function of the state gives, where it is called for its result.
abbrev pub value : {env : Env} {A : Type 0} → M env A → World env → Run A
value m w = elim (m w) [ fault ↦ fault | ok (a, u) ↦ ok a ]

-- SWF_EVT_STAT_INC.
abbrev pub stat_inc : ℕ → Rx → Run Rx
stat_inc t s = elim s.stats [
  | none ↦ fault
  | some f ↦ ok (record s { stats = some (update f t (f t + 1)) })
]

-- The lookups of the copies in agent/zdw_agent, which make no requests of the switch.
module _ {env : Env} where
  -- The result at `*f_res`; a number for which `rte_fbarray_get` gives NULL is a fault, since the
  -- caller follows the pointer.
  unfoldable pub ntb_route_lookup : World env → ℕ → ℕ → Run (ℤ × FibRes)
  ntb_route_lookup w v dip = do
    r ← value (fib_res_get (env.fib.lookup (w.vrfs v).dp.fib (env.be_to_cpu dip))) w
    ok (pos 0, r)

  unfoldable pub ntb_tunnel_map_vrf_lookup : World env → TunnelType → ℕ → Run (Option ℕ)
  ntb_tunnel_map_vrf_lookup w type id = elim (env.tunnel.lookup w.tunnel_tbl (map_key type id)) [
    | none ↦ ok none
    | some p ↦ elim (w.tunnels p) [ none ↦ fault | some t ↦ ntb_vrf_dp_get_by_id w t.vrf_id ]
  ]

  -- The result, and what is written to `*hw_addr` where it is written.
  unfoldable pub ntb_neigh_lookup : World env → ℕ → ℕ → Run (ℤ × Option Mac)
  ntb_neigh_lookup w vrfid gw =
      elim (env.neigh.lookup w.neigh_tbl (record { vrfid = vrfid; nexthop = gw })) [
        | none ↦ ok (enoent, none)
        | some p ↦ elim (w.neighs p) [
          | none ↦ fault
          | some n ↦ ok (if n.arp_valid then (pos 0, some n.d_addr) else (negsuc 0, none))
        ]
      ]
