-- ===== src/Neigh.antt =====
-- agent/neigh.c: the table of overlay neighbours. An entry is found by the VRF and the gateway
-- address, and counts the next hops that use it.
pub mod Safety
pub mod Resolve
pub mod Frame
pub mod Undo
pub mod Bound
pub mod Kept
use tao_p4code.Base.{
  ℕ, ℤ, pos, negsuc, is_neg, Bool, true, false, ◌&&◌, Option, none, some, List, [], ◌∷◌, ◌==◌, leb,
  if◌then◌else◌, update, inc32, dec32, replicate,
}
use tao_p4code.Types.{Mac, NeighKey, NeighEntry, zero_neigh_entry}
use tao_p4code.Errno.{ntb_err_code, ntb_comm_nomem, enoent, enomem, efault}
use tao_p4code.Dpdk.{neigh_entry_add, neigh_entry_del, Hal}
use tao_p4code.World.{Env, World, Run, ok, fault, M, set_dp, shc_hal_call}

-- `fake_mac` and `def_gw_mac` as they are initialised.
abbrev pub init_mac : Mac
init_mac = 0x3c ∷ 0xfd ∷ 0xfe ∷ 0x29 ∷ 0xcb ∷ 0xc2 ∷ []

abbrev pub ntb_broadcast_mac_get : Mac
ntb_broadcast_mac_get = replicate 6 0xff

abbrev pub ntb_zero_mac_get : Mac
ntb_zero_mac_get = replicate 6 0

abbrev pub rte_ether_hdr_len : ℕ
rte_ether_hdr_len = 14

-- The entry that ntb_neigh_add makes, before it has an object id.
abbrev pub fresh_neigh_entry : NeighEntry
fresh_neigh_entry = record zero_neigh_entry { refcnt = 1; fast_arp = true; entry_valid = true }

module _ {env : Env} where
  -- _shc_hal_neigh_entry_add
  pub shc_hal_neigh_entry_add : World env → ℕ → Mac → ℤ × World env
  unfolding shc_hal_call
  shc_hal_neigh_entry_add w neigh_oid dmac = shc_hal_call w (neigh_entry_add neigh_oid dmac)

  -- _shc_hal_neigh_entry_del. It assigns to a `ret` that it does not declare, which is read as the
  -- declaration of the function before it.
  pub shc_hal_neigh_entry_del : World env → ℕ → ℤ × World env
  unfolding shc_hal_call
  shc_hal_neigh_entry_del w neigh_oid = shc_hal_call w (neigh_entry_del neigh_oid)

  pub ntb_fake_mac_get : World env → Mac
  ntb_fake_mac_get w = w.fake_mac

  pub ntb_fake_mac_set : World env → Mac → ℤ × World env
  ntb_fake_mac_set w mac = (pos 0, record w { fake_mac = mac })

  pub ntb_def_gw_mac_get : World env → Mac
  ntb_def_gw_mac_get w = w.def_gw_mac

  pub ntb_def_gw_mac_set : World env → Mac → ℤ × World env
  ntb_def_gw_mac_set w mac = (pos 0, record w { def_gw_mac = mac })

  -- The key of the entry for the gateway `gw` in the VRF `v`.
  abbrev pub neigh_key : World env → ℕ → ℕ → NeighKey
  neigh_key w v gw = record { vrfid = (w.vrfs v).dp.vrf_id; nexthop = gw }

  abbrev pub write_neigh : World env → ℕ → Option NeighEntry → World env
  write_neigh w p n = record w { neighs = update w.neighs p n }

  -- A copy of the entry, or -1.
  pub ol_neigh_lookup : World env → ℕ → ℕ → Run (ℤ × Option NeighEntry)
  ol_neigh_lookup w vrfid gw =
      elim (env.neigh.lookup w.neigh_tbl (record { vrfid = vrfid; nexthop = gw })) [
        | none ↦ ok (negsuc 0, none)
        | some p ↦ elim (w.neighs p) [ none ↦ fault | some hh ↦ ok (pos 0, some hh) ]
      ]

  -- What ol_neigh_add_static writes into the entry that it found or made.
  static_entry : World env → Mac → NeighEntry → NeighEntry
  static_entry w hw_addr n = record n {
    refcnt = if n.arp_static then n.refcnt else inc32 n.refcnt;
    arp_static = true;
    entry_valid = true;
    d_addr = hw_addr;
    s_addr = w.fake_mac;
    ether_type = env.cpu_to_be_16 0x0800;
    hh_len = rte_ether_hdr_len;
    arp_valid = true;
  }

  -- The branch of ol_neigh_add_static that makes the entry.
  static_new : World env → NeighKey → Mac → ℤ × World env
  unfolding static_entry
  static_new w key hw_addr = elim (env.zmalloc w.neighs) [
    | none ↦ (ntb_err_code ntb_comm_nomem, w)
    | some p ↦ elim (env.neigh.add w.neigh_tbl key p) [
      | none ↦ (efault, w)
      | some tbl ↦ (
        pos 0,
        record w {
          neigh_tbl = tbl;
          neighs = update w.neighs p (some (static_entry w hw_addr zero_neigh_entry));
          neigh_count = inc32 w.neigh_count;
        },
      )
    ]
  ]

  pub ol_neigh_add_static : World env → ℕ → ℕ → Mac → Run (ℤ × World env)
  unfolding static_entry static_new
  ol_neigh_add_static w vrfid gw hw_addr =
      let key : NeighKey = record { vrfid = vrfid; nexthop = gw } in
      elim (env.neigh.lookup w.neigh_tbl key) [
        | none ↦ ok (static_new w key hw_addr)
        | some p ↦ elim (w.neighs p) [
          | none ↦ fault
          | some n ↦ ok (pos 0, write_neigh w p (some (static_entry w hw_addr n)))
        ]
      ]

  -- The last part of ntb_neigh_add: the object id, and the roll-back where there is none.
  neigh_finish : World env → ℕ → NeighKey → ℕ → (ℤ × Option ℕ) × World env
  neigh_finish w v key p =
      let (ret, oid, hw) = env.hal.neigh_alloc_oid w.hw in
      if is_neg ret
      then (
        (ret, none),
        record w {
          hw = hw;
          neigh_tbl = env.neigh.del w.neigh_tbl key;
          neighs = update w.neighs p none;
        },
      )
      else (
        (pos 0, some oid),
        record (set_dp w v (record ((w.vrfs v).dp) { neigh_cnt = inc32 (w.vrfs v).dp.neigh_cnt })) {
          hw = hw;
          neighs = update w.neighs p (some (record fresh_neigh_entry { neigh_oid = oid }));
          neigh_count = inc32 w.neigh_count;
        },
      )

  -- The branch of ntb_neigh_add that makes the entry.
  neigh_new : World env → ℕ → NeighKey → (ℤ × Option ℕ) × World env
  unfolding neigh_finish
  neigh_new w v key = elim (env.zmalloc w.neighs) [
    | none ↦ ((enomem, none), w)
    | some p ↦ elim (env.neigh.add w.neigh_tbl key p) [
      | none ↦ ((efault, none), w)
      | some tbl ↦
          neigh_finish
            (record w { neigh_tbl = tbl; neighs = update w.neighs p (some fresh_neigh_entry) }) v
            key p
    ]
  ]

  -- The result, and what it writes to `*neigh_oid_ret` (`none`: nothing).
  pub ntb_neigh_add : World env → ℕ → ℕ → Run ((ℤ × Option ℕ) × World env)
  unfolding neigh_new
  ntb_neigh_add w v gw = elim (env.neigh.lookup w.neigh_tbl (neigh_key w v gw)) [
    | none ↦ ok (neigh_new w v (neigh_key w v gw))
    | some p ↦ elim (w.neighs p) [
      | none ↦ fault
      | some n ↦
          ok (
            (pos 0, some n.neigh_oid),
            write_neigh w p (some (record n { refcnt = inc32 n.refcnt })),
          )
    ]
  ]

  -- The last use of an entry goes: the counters, the key and the entry.
  neigh_drop : World env → ℕ → NeighKey → ℕ → World env
  neigh_drop w v key p =
      record (set_dp w v (record ((w.vrfs v).dp) { neigh_cnt = dec32 (w.vrfs v).dp.neigh_cnt })) {
        neigh_count = dec32 w.neigh_count;
        neigh_tbl = env.neigh.del w.neigh_tbl key;
        neighs = update w.neighs p none;
      }

  pub ntb_neigh_del : World env → ℕ → ℕ → Run (ℤ × World env)
  unfolding neigh_drop
  ntb_neigh_del w v gw = elim (env.neigh.lookup w.neigh_tbl (neigh_key w v gw)) [
    | none ↦ ok (negsuc 0, w)
    | some p ↦ elim (w.neighs p) [
      | none ↦ fault
      | some n ↦
          if leb 1 (dec32 n.refcnt)
          then ok (pos 0, write_neigh w p (some (record n { refcnt = dec32 n.refcnt })))
          else ok (pos 0, neigh_drop w v (neigh_key w v gw) p)
    ]
  ]

  -- The result, and the address that it copies to `*hw_addr` (`none`: nothing). The flag 0 enters
  -- the neighbour in the switch, any other takes it out.
  pub ntb_neigh_lookup : World env → ℕ → ℕ → ℕ → Run ((ℤ × Option Mac) × World env)
  unfolding shc_hal_neigh_entry_add shc_hal_neigh_entry_del
  ntb_neigh_lookup w vrfid gw flag_of_add_del =
      elim (env.neigh.lookup w.neigh_tbl (record { vrfid = vrfid; nexthop = gw })) [
        | none ↦ ok ((enoent, none), w)
        | some p ↦ elim (w.neighs p) [
          | none ↦ fault
          | some n ↦
              if n.arp_valid
              then (let (ret, w') =
                    if flag_of_add_del == 0
                    then shc_hal_neigh_entry_add w n.neigh_oid n.d_addr
                    else shc_hal_neigh_entry_del w n.neigh_oid in
                  ok ((if is_neg ret then ret else pos 0, some n.d_addr), w'))
              else ok ((negsuc 0, none), w)
        ]
      ]
