-- ===== src/Neigh/Safety.antt =====
-- agent/neigh.c: the table of neighbours as a table of live objects, each under one key, through
-- ntb_neigh_add, ntb_neigh_del and ol_neigh_add_static.
use tao_p4code.Base.{
  ℕ, ◌+◌, ◌^◌, ◌<◌, ◌≡◌, some, arith, inl, inr, Bool-cases, Option-cases, is_neg, leb, dec32,
}
use native.Mathlib.Decide.{ℕ_discrete}
use tao_p4code.Types.{Mac, NeighKey, NeighEntry}
use tao_p4code.Dpdk.Owned.{Owned, Owned-write, Owned-add, Owned-del}
use tao_p4code.World.{Returns, Env, World}
use tao_p4code.Neigh.{
  ntb_neigh_add, ntb_neigh_del, ol_neigh_add_static, neigh_key, static_new, neigh_new, neigh_finish,
}

pub NeighKey-discrete : Discrete NeighKey
NeighKey-discrete = hlevel ℕ_discrete

-- An entry in the table is in use, and another use still fits its counter.
abbrev pub InUse : NeighKey → NeighEntry → Type 0
InUse k n = (0 < n.refcnt) × (n.refcnt < 2 ^ 32)

module _ {env : Env} where
  abbrev pub IsSound : World env → Type 0
  IsSound w = Owned env.neigh InUse w.neigh_tbl w.neighs

  neigh_finish-IsSound :
      (w : World env) (v : ℕ) (key : NeighKey) (p : ℕ)
      → env.neigh.lookup w.neigh_tbl key ≡ some p
      → IsSound w
      → IsSound (neigh_finish w v key p).1
  unfolding neigh_finish
  neigh_finish-IsSound w v key p at s =
      elim (Bool-cases (is_neg (env.hal.neigh_alloc_oid w.hw).0)) [
        | inl e ↦ rw e (Owned-del env.neigh InUse NeighKey-discrete s key p at)
        | inr e ↦ rw e (Owned-write env.neigh InUse NeighKey-discrete s key p _ at (omega arith))
      ]

  neigh_new-IsSound :
      (w : World env) (v : ℕ) (key : NeighKey) → IsSound w → IsSound (neigh_new w v key).1
  unfolding neigh_new
  neigh_new-IsSound w v key s = elim (Option-cases (env.zmalloc w.neighs)) [
    | inl e ↦ rw (e, neigh_new) s
    | inr (p, e) ↦ elim (Option-cases (env.neigh.add w.neigh_tbl key p)) [
      | inl f ↦ rw (e, f, neigh_new) s
      | inr (u, f) ↦
          rw (e, f, neigh_new)
            (neigh_finish-IsSound _ v key p (env.neigh.lookup-add_self w.neigh_tbl u key p f) (
              Owned-add env.neigh InUse NeighKey-discrete s key p _ u
                (env.zmalloc_fresh w.neighs p e) f (omega arith)))
    ]
  ]

  -- A use of the entry of `key`, if there is one, still fits its counter.
  abbrev pub HasRoom : World env → NeighKey → Type 0
  HasRoom w key =
      (p : ℕ) (n : NeighEntry)
      → env.neigh.lookup w.neigh_tbl key ≡ some p
      → w.neighs p ≡ some n
      → n.refcnt + 1 < 2 ^ 32

  -- In a sound state, where the counter of the entry is not at its largest value, ntb_neigh_add
  -- returns on every branch and leaves a sound state.
  pub ntb_neigh_add-IsSound :
      (w : World env) (v gw : ℕ)
      → IsSound w
      → HasRoom w (neigh_key w v gw)
      → Returns (λ _. IsSound) (ntb_neigh_add w v gw)
  unfolding ntb_neigh_add
  ntb_neigh_add-IsSound w v gw s room =
      elim (Option-cases (env.neigh.lookup w.neigh_tbl (neigh_key w v gw))) [
        | inl e ↦ rw (e, ntb_neigh_add) (neigh_new-IsSound w v (neigh_key w v gw) s)
        | inr (p, e) ↦
            let (n, live, used) = s.live (neigh_key w v gw) p e in
            rw (e, live, ntb_neigh_add)
              (Owned-write env.neigh InUse NeighKey-discrete s (neigh_key w v gw) p _ e
                (omega (arith, room p n e live)))
      ]

  -- In a sound state ntb_neigh_del returns on every branch and leaves a sound state.
  pub ntb_neigh_del-IsSound :
      (w : World env) (v gw : ℕ) → IsSound w → Returns (λ _. IsSound) (ntb_neigh_del w v gw)
  unfolding ntb_neigh_del
  ntb_neigh_del-IsSound w v gw s =
      elim (Option-cases (env.neigh.lookup w.neigh_tbl (neigh_key w v gw))) [
        | inl e ↦ rw (e, ntb_neigh_del) s
        | inr (p, e) ↦
            let (n, live, used) = s.live (neigh_key w v gw) p e in
            rw (e, live, ntb_neigh_del)
              (elim (Bool-cases (leb 1 (dec32 n.refcnt))) [
                | inl more ↦ rw more (
                    Owned-write env.neigh InUse NeighKey-discrete s (neigh_key w v gw) p _ e
                      (ground arith))
                | inr last ↦
                    rw last (Owned-del env.neigh InUse NeighKey-discrete s (neigh_key w v gw) p e)
              ])
      ]

  -- In a sound state, where the counter of the entry is not at its largest value,
  -- ol_neigh_add_static returns on every branch and leaves a sound state.
  pub ol_neigh_add_static-IsSound :
      (w : World env) (vrfid gw : ℕ) (mac : Mac)
      → IsSound w
      → HasRoom w (record { vrfid = vrfid; nexthop = gw })
      → Returns (λ _. IsSound) (ol_neigh_add_static w vrfid gw mac)
  unfolding ol_neigh_add_static
  ol_neigh_add_static-IsSound w vrfid gw mac s room =
      elim (Option-cases (env.neigh.lookup w.neigh_tbl key)) [
        | inl e ↦ rw (e, ol_neigh_add_static) static_new-IsSound
        | inr (p, e) ↦
            let (n, live, used) = s.live key p e in
            rw (e, live, ol_neigh_add_static)
              (Owned-write env.neigh InUse NeighKey-discrete s key p _ e
                (ground (arith, room p n e live)))
      ]
    where
      key : NeighKey
      key = record { vrfid = vrfid; nexthop = gw }

      static_new-IsSound : IsSound (static_new w key mac).1
      static_new-IsSound = elim (Option-cases (env.zmalloc w.neighs)) [
        | inl e ↦ rw (e, static_new) s
        | inr (p, e) ↦ elim (Option-cases (env.neigh.add w.neigh_tbl key p)) [
          | inl f ↦ rw (e, f, static_new) s
          | inr (u, f) ↦
              rw (e, f, static_new)
                (Owned-add env.neigh InUse NeighKey-discrete s key p _ u
                  (env.zmalloc_fresh w.neighs p e) f (omega arith))
        ]
      ]
