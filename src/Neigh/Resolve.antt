-- ===== src/Neigh/Resolve.antt =====
-- agent/neigh.c: ntb_neigh_lookup of the entries that ol_neigh_add_static and ntb_neigh_add make.
use tao_p4code.Base.{
  if◌then◌else◌, Bool-cases, ◌==◌, ℕ, ℤ, pos, negsuc, ◌≡◌, ◌⊎◌, refl, inl, inr, Option-cases, true,
  false, is_neg, none, some, update, update_self,
}
use tao_p4code.Errno.{enoent}
use tao_p4code.Types.{Mac, NeighKey, NeighEntry, zero_neigh_entry}
use tao_p4code.Dpdk.{HalReq, neigh_entry_add, neigh_entry_del}
use tao_p4code.World.{shc_hal_call, Returns, Env, World, ok}
use tao_p4code.Neigh.{
  shc_hal_neigh_entry_add, shc_hal_neigh_entry_del, ntb_neigh_lookup, ol_neigh_add_static,
  static_new, static_entry, ntb_neigh_add, neigh_new, neigh_finish, neigh_key, fresh_neigh_entry,
}
use tao_p4code.Neigh.Safety.{IsSound}

abbrev pub key_of : ℕ → ℕ → NeighKey
key_of vrfid gw = record { vrfid = vrfid; nexthop = gw }

-- The request that ntb_neigh_lookup makes for a live entry whose address is known.
abbrev pub neigh_request : ℕ → NeighEntry → HalReq
neigh_request flag n =
    if flag == 0 then neigh_entry_add n.neigh_oid n.d_addr else neigh_entry_del n.neigh_oid

module _ {env : Env} where
  -- The table has a live entry for the neighbour.
  pub record Entry (w : World env) (vrfid gw : ℕ) (n : NeighEntry) : Type 0 where
    pub at : ℕ
    pub entry : env.neigh.lookup w.neigh_tbl (key_of vrfid gw) ≡ some at
    pub live : w.neighs at ≡ some n

  -- ntb_neigh_lookup of a live entry gives its MAC address, with the status of the request to the
  -- switch, if the address is known, and the status -1 and nothing else if it is not.
  pub resolve_live :
      (w : World env) (vrfid gw flag : ℕ) (n : NeighEntry)
      → Entry w vrfid gw n
      → (n.arp_valid ≡ true
          → (ret : ℤ) × (u : World env) × (ntb_neigh_lookup w vrfid gw flag
              ≡ ok ((ret, some n.d_addr), u)))
        × (n.arp_valid ≡ false → ntb_neigh_lookup w vrfid gw flag ≡ ok ((negsuc 0, none), w))
  unfolding ntb_neigh_lookup
  resolve_live w vrfid gw flag n h = (
    λ on. rw (h.entry, h.live, on, ntb_neigh_lookup) (_, _, refl),
    λ off. rw (h.entry, h.live, off, ntb_neigh_lookup) refl,
  )

  pub ntb_neigh_lookup-none :
      (w : World env) (vrfid gw flag : ℕ)
      → env.neigh.lookup w.neigh_tbl (key_of vrfid gw) ≡ none
      → ntb_neigh_lookup w vrfid gw flag ≡ ok ((enoent, none), w)
  unfolding ntb_neigh_lookup
  ntb_neigh_lookup-none w vrfid gw flag h = rw (h, ntb_neigh_lookup) refl

  pub ntb_neigh_lookup-eq :
      (w : World env) (vrfid gw flag : ℕ) (n : NeighEntry)
      → Entry w vrfid gw n
      → n.arp_valid ≡ true
      → let c = shc_hal_call w (neigh_request flag n) in
        ntb_neigh_lookup w vrfid gw flag
        ≡ ok ((if is_neg c.0 then c.0 else pos 0, some n.d_addr), c.1)
  unfolding ntb_neigh_lookup shc_hal_neigh_entry_add shc_hal_neigh_entry_del
  ntb_neigh_lookup-eq w vrfid gw flag n h on = elim (Bool-cases (flag == 0)) [
    | inl e ↦ rw (h.entry, h.live, on, e, ntb_neigh_lookup) refl
    | inr e ↦ rw (h.entry, h.live, on, e, ntb_neigh_lookup) refl
  ]

  -- In a sound state ol_neigh_add_static returns. Either the status is negative and the state is
  -- as before, or the status is 0 and ntb_neigh_lookup then gives the MAC address that was set.
  pub ntb_neigh_lookup-add_static :
      (w : World env) (vrfid gw flag : ℕ) (mac : Mac)
      → IsSound w
      → Returns
          (λ ret u.
            ((is_neg ret ≡ true) × (u ≡ w))
            ⊎ ((ret ≡ pos 0)
                × ((status : ℤ) × (u' : World env) × (ntb_neigh_lookup u vrfid gw flag
                      ≡ ok ((status, some mac), u')))))
          (ol_neigh_add_static w vrfid gw mac)
  unfolding ol_neigh_add_static static_new static_entry
  ntb_neigh_lookup-add_static w vrfid gw flag mac s =
      elim (Option-cases (env.neigh.lookup w.neigh_tbl (key_of vrfid gw))) [
        | inr (p, e) ↦
            let (n, live, used) = s.live (key_of vrfid gw) p e in
            rw (e, live, ol_neigh_add_static)
              (inr (
                refl,
                (resolve_live _ vrfid gw flag (static_entry w mac n)
                      (record { at = p; entry = e; live = update_self w.neighs p _ })).0
                    refl,
              ))
        | inl e ↦ elim (Option-cases (env.zmalloc w.neighs)) [
          | inl f ↦ rw (e, f, static_new, ol_neigh_add_static) (inl (refl, refl))
          | inr (p, f) ↦ elim (Option-cases (env.neigh.add w.neigh_tbl (key_of vrfid gw) p)) [
            | inl g ↦ rw (e, f, g, static_new, ol_neigh_add_static) (inl (refl, refl))
            | inr (tbl, g) ↦
                rw (e, f, g, static_new, ol_neigh_add_static)
                  (inr (
                    refl,
                    (resolve_live _ vrfid gw flag (static_entry w mac zero_neigh_entry) (record {
                      at = p;
                      entry = env.neigh.lookup-add_self w.neigh_tbl tbl (key_of vrfid gw) p g;
                      live = update_self w.neighs p _;
                    })).0
                        refl,
                  ))
          ]
        ]
      ]

  -- For a gateway that the table of neighbours does not have, ntb_neigh_add returns. If its
  -- status is negative, ntb_neigh_lookup of the gateway then returns ENOENT (negative); if its
  -- status is 0, ntb_neigh_lookup returns -1. In both cases the lookup gives no MAC address and
  -- makes no request.
  pub ntb_neigh_lookup-add :
      (w : World env) (v gw flag : ℕ)
      → env.neigh.lookup w.neigh_tbl (neigh_key w v gw) ≡ none
      → Returns
          (λ r u.
            let found = ntb_neigh_lookup u (w.vrfs v).dp.vrf_id gw flag in
            ((is_neg r.0 ≡ true) × (found ≡ ok ((enoent, none), u)))
            ⊎ ((r.0 ≡ pos 0) × (found ≡ ok ((negsuc 0, none), u))))
          (ntb_neigh_add w v gw)
  unfolding ntb_neigh_add neigh_new neigh_finish
  ntb_neigh_lookup-add w v gw flag e =
      let vrfid = (w.vrfs v).dp.vrf_id in
      rw (e, ntb_neigh_add)
        (elim (Option-cases (env.zmalloc w.neighs)) [
          | inl z ↦ rw (z, neigh_new) (inl (refl, ntb_neigh_lookup-none w vrfid gw flag e))
          | inr (p, z) ↦ elim (Option-cases (env.neigh.add w.neigh_tbl (neigh_key w v gw) p)) [
            | inl f ↦ rw (z, f, neigh_new) (inl (refl, ntb_neigh_lookup-none w vrfid gw flag e))
            | inr (tbl, f) ↦
                rw (z, f, neigh_new)
                  (elim (Bool-cases (is_neg (env.hal.neigh_alloc_oid w.hw).0)) [
                    | inl neg ↦
                        rw (neg, neigh_finish)
                          (inl (
                            neg,
                            ntb_neigh_lookup-none _ vrfid gw flag
                                (env.neigh.lookup-del_self tbl (neigh_key w v gw)),
                          ))
                    | inr got ↦
                        rw (got, neigh_finish)
                          (inr (
                            refl,
                            (resolve_live _ vrfid gw flag
                                  (record fresh_neigh_entry {
                                    neigh_oid = (env.hal.neigh_alloc_oid w.hw).1;
                                  })
                                  (record {
                                    at = p;
                                    entry =
                                        env.neigh.lookup-add_self w.neigh_tbl tbl (key_of vrfid gw)
                                          p f;
                                    live =
                                        update_self (update w.neighs p (some fresh_neigh_entry)) p
                                          _;
                                  })).1
                                refl,
                          ))
                  ])
          ]
        ])
