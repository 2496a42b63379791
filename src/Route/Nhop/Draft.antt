-- ===== src/Route/Nhop/Draft.antt =====
-- The object of a next hop while nhop_obj_create makes it, and the roll-back of its failures.

use tao_p4code.Base.{ℕ, ◌^◌, ◌<◌, ◌≡◌, ◌≢◌, ◌∙◌, ap, none, some, inl, inr, Bool-cases, update, ◌==◌}
use tao_p4code.Types.{NhopEncapData, FibNhop}
use tao_p4code.Dpdk.Owned.{Owned, Owned-del, Owned-mono, Owned-eq}
use tao_p4code.World.{Env, World, Returns, Returns-follow, Returns-and}
use tao_p4code.Neigh.{ntb_neigh_del}
use tao_p4code.Neigh.Safety as NeighSafety
use tao_p4code.Neigh.Frame.{SameRoutes, ntb_neigh_del-SameRoutes}
use tao_p4code.Route.Nhop.{nhop_key, nhop_of, rollback3, rollback4}
use tao_p4code.Route.Nhop.Safety.{NhopKey-discrete, InUse, BothSound}

-- The same, but the object of `key` may have no use yet.
abbrev pub Draft : NhopEncapData → NhopEncapData → FibNhop → Type 0
Draft key k n = (nhop_key n ≡ k) × (k ≢ key → 0 < n.ref_count) × (n.ref_count < 2 ^ 32)

module _ {env : Env} where
  abbrev pub DraftSound : NhopEncapData → World env → Type 0
  DraftSound key w = Owned env.nhop (Draft key) w.nhop_tbl w.nhops

  -- The state while the object of `key` at `p` is being made.
  pub record Making (key : NhopEncapData) (p : ℕ) (w : World env) : Type 0 where
    pub nhops : DraftSound key w
    pub neighs : NeighSafety.IsSound w
    pub entered : env.nhop.lookup w.nhop_tbl key ≡ some p
    pub fresh : w.nhops p ≡ some (nhop_of key)

  pub Making-eq :
      (key : NhopEncapData) (p : ℕ) (w w' : World env)
      → Making key p w
      → SameRoutes w w'
      → NeighSafety.IsSound w'
      → Making key p w'
  Making-eq key p w w' m same s = record {
    nhops = Owned-eq env.nhop (Draft key) same.nhop_tbl same.nhops m.nhops;
    neighs = s;
    entered = ap (λ t. env.nhop.lookup t key) same.nhop_tbl ∙ m.entered;
    fresh = ap (λ h. h p) same.nhops ∙ m.fresh;
  }

  -- Without the object of `key` the others are in use.
  pub drop_draft :
      (key : NhopEncapData) (p : ℕ) (w : World env)
      → DraftSound key w
      → env.nhop.lookup w.nhop_tbl key ≡ some p
      → Owned env.nhop InUse (env.nhop.del w.nhop_tbl key) (update w.nhops p none)
  drop_draft key p w s at =
      Owned-mono env.nhop (Draft key) InUse
        (Owned-del env.nhop (Draft key) NhopKey-discrete s key p at)
        (λ k q a e h d. (d.0, d.1 (λ same. absurd (gone k q e same)), d.2))
    where
      gone :
          (k : NhopEncapData) (q : ℕ)
          → env.nhop.lookup (env.nhop.del w.nhop_tbl key) k ≡ some q
          → k ≡ key
          → ⊥
      gone k q e same = cc (env.nhop.lookup-del_self w.nhop_tbl key)

  -- The roll-back takes out the object that was being made.
  pub rollback4-IsSound :
      (key : NhopEncapData) (p : ℕ) (w : World env) → Making key p w → BothSound (rollback4 key p w)
  unfolding rollback4
  rollback4-IsSound key p w m = (drop_draft key p w m.nhops m.entered, m.neighs)

  pub rollback3-IsSound :
      (v : ℕ) (key : NhopEncapData) (p : ℕ) (w : World env)
      → Making key p w
      → Returns (λ _. BothSound) (rollback3 v key p w)
  unfolding rollback3
  rollback3-IsSound v key p w m = elim (Bool-cases (key.gateway == 0)) [
    | inl e ↦ rw e (rollback4-IsSound key p w m)
    | inr e ↦ rw e (
        Returns-follow _ (λ _. BothSound) (ntb_neigh_del w v key.gateway) _
          (Returns-and _ _ (ntb_neigh_del w v key.gateway)
            (NeighSafety.ntb_neigh_del-IsSound w v key.gateway m.neighs)
            (ntb_neigh_del-SameRoutes w v key.gateway m.neighs))
          λ r w' h. rollback4-IsSound key p w' (Making-eq key p w w' m h.1 h.0))
  ]

  -- The object of `key` is made: it stands at `p` with no use yet.
  pub record Made (key : NhopEncapData) (p : ℕ) (w : World env) : Type 0 where
    pub nhops : DraftSound key w
    pub neighs : NeighSafety.IsSound w
    pub entered : env.nhop.lookup w.nhop_tbl key ≡ some p
    pub made : (n : FibNhop) × (w.nhops p ≡ some n) × (nhop_key n ≡ key) × (n.ref_count ≡ 0)
