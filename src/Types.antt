-- ===== src/Types.antt =====
-- The constants and structures of agent/ntb_dp.h, agent/route.h, agent/neigh.h and
-- agent/tunnel_map.h. A fixed-width unsigned field is a native number.
use tao_p4code.Base.{
  ℕ, ◌+◌, ◌-◌, ◌/◌, ◌%◌, ◌^◌, Bool, true, false, ◌&&◌, Option, List, ◌==◌, leb, if◌then◌else◌,
  replicate,
}

abbrev pub ntb_nr_vrf : ℕ
ntb_nr_vrf = 4096

abbrev pub ntb_vrf_name_len : ℕ
ntb_vrf_name_len = 64

abbrev pub route_max_ecmp : ℕ
route_max_ecmp = 1

abbrev pub mroute_max_ecmp : ℕ
mroute_max_ecmp = 8

-- `MAX_NHOPS_PER_RTOUE`, the size of the local arrays of next hops.
abbrev pub max_nhops_per_rtoue : ℕ
max_nhops_per_rtoue = if leb route_max_ecmp mroute_max_ecmp then mroute_max_ecmp else route_max_ecmp

-- `enum ntb_encap_type`.
pub data EncapType : Type 0 where
  invalid vxlan tgre encap_max : EncapType

abbrev pub encap_num : EncapType → ℕ
encap_num invalid = 0
encap_num vxlan = 1
encap_num tgre = 2
encap_num encap_max = 3

-- `rib_type_t`.
pub data RibType : Type 0 where
  rt_default rt_mroute rt_max : RibType

abbrev pub rib_type_eq : RibType → RibType → Bool
rib_type_eq rt_default rt_default = true
rib_type_eq rt_mroute rt_mroute = true
rib_type_eq rt_max rt_max = true
rib_type_eq _ _ = false

-- `prefix_type_t`, the values that the code forms.
pub data PrefixType : Type 0 where
  rt_prefix_invalid rt_prefix_lpm rt_prefix_host : PrefixType

pub record RibKey : Type 0 where
  pub vrf_id : ℕ
  pub family : ℕ
  pub prefixlen : ℕ
  pub prefix4 : ℕ

-- `struct ip_tunnel_info`. The union is three words: `vxlan` is { remote, local, vni:24 | dscp:8 }
-- and `tgre` is { remote, vpcid, vmip } over the same words.
pub record TunnelInfo : Type 0 where
  pub family : ℕ
  pub type : EncapType
  pub word0 : ℕ
  pub word1 : ℕ
  pub word2 : ℕ

abbrev pub vxlan_remote : TunnelInfo → ℕ
vxlan_remote t = t.word0

abbrev pub vxlan_local : TunnelInfo → ℕ
vxlan_local t = t.word1

abbrev pub vxlan_vni : TunnelInfo → ℕ
vxlan_vni t = t.word2 % 2 ^ 24

abbrev pub vxlan_dscp : TunnelInfo → ℕ
vxlan_dscp t = t.word2 / 2 ^ 24

abbrev pub tgre_vpcid : TunnelInfo → ℕ
tgre_vpcid t = t.word1

-- `!memcmp` over two `struct ip_tunnel_info`, which are packed.
abbrev pub tunnel_info_eq : TunnelInfo → TunnelInfo → Bool
tunnel_info_eq s t =
    s.family == t.family
    && encap_num s.type == encap_num t.type
    && s.word0 == t.word0
    && s.word1 == t.word1
    && s.word2 == t.word2

-- `struct fib_nhop_encap_data`, and `struct ntb_nhop_hash_key`, which has the same two fields.
pub record NhopEncapData : Type 0 where
  pub gateway : ℕ
  pub tunnel_info : TunnelInfo

pub record FibNhop : Type 0 where
  pub nh_oid : ℕ
  pub ref_count : ℕ
  pub neigh_oid : ℕ
  pub gateway : ℕ
  pub tunnel_info : TunnelInfo

-- `struct fib_res`. A slot of `mpath` is a pointer to a next hop, `none` where it is NULL.
pub record FibRes : Type 0 where
  pub f_res_oid : ℕ
  pub fr_flags : ℕ
  pub mpath_cnt : ℕ
  pub mpath_max : ℕ
  pub mpath : List (Option ℕ)

-- `1ul << k`: the flags are single bits, given by their positions.
abbrev pub frf_reject : ℕ
frf_reject = 0

abbrev pub frf_mroute : ℕ
frf_mroute = 1

abbrev pub frf_nottl : ℕ
frf_nottl = 2

-- `fr_flags & (1 << k)`.
abbrev pub has_flag : FibRes → ℕ → Bool
has_flag r k = (r.fr_flags / 2 ^ k) % 2 == 1

abbrev pub fib_res_is_reject : FibRes → Bool
fib_res_is_reject r = has_flag r frf_reject

abbrev pub fib_res_is_mroute : FibRes → Bool
fib_res_is_mroute r = has_flag r frf_mroute

abbrev pub fib_res_is_nottl : FibRes → Bool
fib_res_is_nottl r = has_flag r frf_nottl

-- `fr_flags |= flags` and `fr_flags &= ~flags` for the flag at position `k`.
abbrev pub fib_res_set_flags : FibRes → ℕ → FibRes
fib_res_set_flags r k = if has_flag r k then r else record r { fr_flags = r.fr_flags + 2 ^ k }

abbrev pub fib_res_unset_flags : FibRes → ℕ → FibRes
fib_res_unset_flags r k = if has_flag r k then record r { fr_flags = r.fr_flags - 2 ^ k } else r

abbrev pub fib_res_clone_flags : FibRes → FibRes → FibRes
fib_res_clone_flags d s = record d { fr_flags = s.fr_flags }

-- A MAC address is its six bytes.
abbrev pub Mac : Type 0
Mac = List ℕ

pub record NeighKey : Type 0 where
  pub vrfid : ℕ
  pub nexthop : ℕ

-- `struct ol_neigh_entry`; `d_addr`, `s_addr` and `ether_type` are the Ethernet header in `hh`. The
-- fields that no code writes (`F_arp_hot`, `F_arp_check`, the time stamps) are left out.
pub record NeighEntry : Type 0 where
  pub arp_valid : Bool
  pub fast_arp : Bool
  pub entry_valid : Bool
  pub arp_static : Bool
  pub hh_len : ℕ
  pub d_addr : Mac
  pub s_addr : Mac
  pub ether_type : ℕ
  pub neigh_oid : ℕ
  pub refcnt : ℕ

-- `ntb_tunnel_type_t`.
pub data TunnelType : Type 0 where
  tunnel_invalid tunnel_vxlan tunnel_tgre tunnel_max : TunnelType

-- `ntb_tunnel_id_t` is a union of three words of 32 bits: one number.
pub record TunnelMapKey : Type 0 where
  pub type : TunnelType
  pub id : ℕ

-- `struct ntb_tunnel_info` without its list link and the two fields that no code uses (`bd_ids`,
-- `attribute`).
pub record NtbTunnelInfo : Type 0 where
  pub type : TunnelType
  pub id : ℕ
  pub vrf_id : ℕ

-- What `rte_zmalloc_socket` gives: objects whose bytes are all 0.
abbrev pub zero_tunnel_info : TunnelInfo
zero_tunnel_info = record { family = 0; type = invalid; word0 = 0; word1 = 0; word2 = 0 }

abbrev pub zero_fib_nhop : FibNhop
zero_fib_nhop = record {
  nh_oid = 0;
  ref_count = 0;
  neigh_oid = 0;
  gateway = 0;
  tunnel_info = zero_tunnel_info;
}

abbrev pub zero_mac : Mac
zero_mac = replicate 6 0

abbrev pub zero_neigh_entry : NeighEntry
zero_neigh_entry = record {
  arp_valid = false;
  fast_arp = false;
  entry_valid = false;
  arp_static = false;
  hh_len = 0;
  d_addr = zero_mac;
  s_addr = zero_mac;
  ether_type = 0;
  neigh_oid = 0;
  refcnt = 0;
}

abbrev pub zero_ntb_tunnel_info : NtbTunnelInfo
zero_ntb_tunnel_info = record { type = tunnel_invalid; id = 0; vrf_id = 0 }
