-- ===== src/Dpdk.antt =====
-- What the agent takes from DPDK and from the switch driver, as interfaces: types and operations
-- that the agent's code calls, with the documented behaviour that the theorems rely on.
-- `rte_hash`, `rte_fbarray`, `rte_fib` and `rte_zmalloc_socket` are DPDK's; the `hal_*` calls end
-- in the driver of the switch. None of them is defined here.
pub mod Owned
pub mod Walk
use tao_p4code.Base.{
  ℕ, ◌<◌, ◌≤◌, ℤ, Bool, true, false, ◌≡◌, ◌≢◌, Option, none, some, ◌==◌, if◌then◌else◌, List,
}

-- `rte_hash`: a table from keys to data, of bounded capacity. `add` is `rte_hash_add_key_data`
-- (`none` stands for a negative result), `lookup` is `rte_hash_lookup_data`, `del` is the table after
-- `rte_hash_del_key` and `del_ret` its result: a position, or a negative number where there is no key. `iterate` is `rte_hash_iterate`: from
-- a position on, the next position and the entry that it passed; positions end at `entries`.
pub record Table (K V : Type 0) : Type 1 where
  pub Tbl : Type 0
  pub entries : ℕ
  pub lookup : Tbl → K → Option V
  pub add : Tbl → K → V → Option Tbl
  pub del : Tbl → K → Tbl
  pub del_ret : Tbl → K → ℤ
  pub iterate : Tbl → ℕ → Option (ℕ × K × V)
  pub lookup-add_self : (t u : Tbl) (k : K) (v : V) → add t k v ≡ some u → lookup u k ≡ some v
  pub lookup-add_ne :
      (t u : Tbl) (k j : K) (v : V) → add t k v ≡ some u → j ≢ k → lookup u j ≡ lookup t j
  pub lookup-del_self : (t : Tbl) (k : K) → lookup (del t k) k ≡ none
  pub iterate_bounds :
      (t : Tbl) (i j : ℕ) (k : K) (v : V) → iterate t i ≡ some (j, k, v) → (i < j) × (j ≤ entries)
  pub iterate-lookup :
      (t : Tbl) (i j : ℕ) (k : K) (v : V) → iterate t i ≡ some (j, k, v) → lookup t k ≡ some v
  pub lookup-del_ne : (t : Tbl) (k j : K) → j ≢ k → lookup (del t k) j ≡ lookup t j

-- `rte_fbarray`: which of the `len` elements of a shared array are in use.
pub record FbArray : Type 1 where
  pub Arr : Type 0
  pub len : ℕ
  pub used : Arr → ℕ → Bool
  pub find_next_free : Arr → Option ℕ
  pub set_used : Arr → ℕ → Arr
  pub set_free : Arr → ℕ → Arr
  pub find_next_free-used : (a : Arr) (i : ℕ) → find_next_free a ≡ some i → used a i ≡ false
  pub find_next_free-lt : (a : Arr) (i : ℕ) → find_next_free a ≡ some i → i < len
  pub used-set_used :
      (a : Arr) (i j : ℕ) → used (set_used a i) j ≡ (if j == i then true else used a j)
  pub used-set_free :
      (a : Arr) (i j : ℕ) → used (set_free a i) j ≡ (if j == i then false else used a j)

-- `rte_fib`: prefixes (address in host order, length) with a next hop, and the lookup of an address.
-- `route` is what the table holds at a prefix.
pub record FibTable : Type 1 where
  pub Fib : Type 0
  pub route : Fib → ℕ → ℕ → Option ℤ
  pub add : Fib → ℕ → ℕ → ℤ → Option Fib
  pub delete : Fib → ℕ → ℕ → Fib
  pub lookup : Fib → ℕ → ℤ
  pub route-add_self :
      (f g : Fib) (p l : ℕ) (nh : ℤ) → add f p l nh ≡ some g → route g p l ≡ some nh
  pub route-delete_self : (f : Fib) (p l : ℕ) → route (delete f p l) p l ≡ none

-- `tunnel_type` of a tunnel's key in the switch.
pub data HalTunnelType : Type 0 where
  type_tunnel_type_vxlan type_tunnel_type_gre : HalTunnelType

-- The requests that the agent sends to the switch: one constructor for each `hal_*_entry_*` call,
-- with the fields of its key and its data.
pub data HalReq : Type 0 where
  route_entry_add : (vrf ip_src_addr ip_dst_addr nhop_id : ℕ) → HalReq
  route_entry_del : (vrf ip_src_addr ip_dst_addr : ℕ) → HalReq
  nhop_entry_add : (nhop_id tunnel_key local remote neigh_id : ℕ) → HalReq
  nhop_entry_del : (nhop_id : ℕ) → HalReq
  neigh_entry_add : (neigh_id : ℕ) → (dmac : List ℕ) → HalReq
  neigh_entry_del : (neigh_id : ℕ) → HalReq
  tunnel_map_vrf_entry_add : HalTunnelType → (tunnel_key vrf : ℕ) → HalReq
  tunnel_map_vrf_entry_del : HalTunnelType → (tunnel_key : ℕ) → HalReq

-- The driver: a request gives a status and the new state of the switch; an allocation of an object
-- id gives a status, the id and the new state.
pub record Hal : Type 1 where
  pub Hw : Type 0
  pub call : HalReq → Hw → ℤ × Hw
  pub nhop_alloc_oid : Hw → ℤ × ℕ × Hw
  pub neigh_alloc_oid : Hw → ℤ × ℕ × Hw
