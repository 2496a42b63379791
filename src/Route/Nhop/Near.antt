-- ===== src/Route/Nhop/Near.antt =====
-- agent/route.c: the next hops and neighbours away from the key of nhop_obj_create and
-- nhop_obj_delete.
use tao_p4code.Base.{
  ℕ, ℤ, pos, negsuc, ◌+◌, ◌≤◌, ◌≡◌, ◌≢◌, refl, ◌∙◌, ap, Option, none, some, inl, inr, if◌then◌else◌,
  Bool-cases, is_neg, update, update_self, ◌==◌, inc32,
}
use tao_p4code.Types.{NhopEncapData, FibNhop}
use tao_p4code.Dpdk.Owned.{update_ne}
use tao_p4code.World.{Env, World, ok, Returns, Returns-follow, Returns-and}
use tao_p4code.Neigh.{ntb_neigh_add, ntb_neigh_del}
use tao_p4code.Neigh.Bound.{
  IsBounded, AtMost, AtMost-mono, ntb_neigh_add-IsBounded, ntb_neigh_del-IsBounded,
}
use tao_p4code.Neigh.Frame.{SameRoutes, ntb_neigh_add-SameRoutes, ntb_neigh_del-SameRoutes}
use tao_p4code.Route.Nhop.{rollback3, rollback4, nhop_alloc, nhop_neigh, nhop_use}
use tao_p4code.Route.Nhop.Safety.{NeighRoom}

module _ {env : Env} where
  -- The state `u` differs from `w` at most in the key `key`, in the object at `p`, in the neighbours
  -- and in the switch.
  pub record Near (limit : ℕ) (w : World env) (key : NhopEncapData) (p : ℕ) (u : World env)
      : Type 0 where
    pub neighs : IsBounded limit u
    pub keys :
        (k : NhopEncapData) → k ≢ key → env.nhop.lookup u.nhop_tbl k ≡ env.nhop.lookup w.nhop_tbl k
    pub objects : (q : ℕ) → q ≢ p → u.nhops q ≡ w.nhops q
    pub rib : u.rib ≡ w.rib
    pub fb : u.fb ≡ w.fb
    pub fib_res : u.fib_res ≡ w.fib_res

  module _ (limit : ℕ) (w : World env) (key : NhopEncapData) (p : ℕ) where
    pub Near-write :
        (u : World env) (n : Option FibNhop)
        → Near limit w key p u
        → Near limit w key p (record u { nhops = update u.nhops p n })
    Near-write u n h = record {
      neighs = h.neighs;
      keys = h.keys;
      objects = λ q ne. update_ne u.nhops p q n ne ∙ h.objects q ne;
      rib = h.rib;
      fb = h.fb;
      fib_res = h.fib_res;
    }

    pub Near-del :
        (u : World env)
        → Near limit w key p u
        → Near limit w key p (record u { nhop_tbl = env.nhop.del u.nhop_tbl key })
    Near-del u h = record {
      neighs = h.neighs;
      keys = λ k ne. env.nhop.lookup-del_ne u.nhop_tbl key k ne ∙ h.keys k ne;
      objects = h.objects;
      rib = h.rib;
      fb = h.fb;
      fib_res = h.fib_res;
    }

    pub Near-neigh :
        (u u' : World env)
        → Near limit w key p u
        → SameRoutes u u'
        → IsBounded limit u'
        → Near limit w key p u'
    Near-neigh u u' h same s = record {
      neighs = s;
      keys = λ k ne. ap (λ t. env.nhop.lookup t k) same.nhop_tbl ∙ h.keys k ne;
      objects = λ q ne. ap (λ g. g q) same.nhops ∙ h.objects q ne;
      rib = same.rib ∙ h.rib;
      fb = same.fb ∙ h.fb;
      fib_res = same.fib_res ∙ h.fib_res;
    }

    -- The key and the object are not there.
    pub record Gone (u : World env) : Type 0 where
      pub near : Near limit w key p u
      pub key_gone : env.nhop.lookup u.nhop_tbl key ≡ none
      pub object_gone : u.nhops p ≡ none

    -- The key leads to the object, which has `count` uses.
    pub record Has (count : ℕ) (u : World env) : Type 0 where
      pub near : Near limit w key p u
      pub key_at : env.nhop.lookup u.nhop_tbl key ≡ some p
      pub object : (n : FibNhop) × (u.nhops p ≡ some n) × (n.ref_count ≡ count)

    rollback4-Gone : (u : World env) → Near limit w key p u → Gone (rollback4 key p u)
    unfolding rollback4
    rollback4-Gone u h = record {
      near = Near-write _ none (Near-del u h);
      key_gone = env.nhop.lookup-del_self u.nhop_tbl key;
      object_gone = update_self u.nhops p none;
    }

    rollback3-Gone :
        (v : ℕ) (u : World env) → Near limit w key p u → Returns (λ _. Gone) (rollback3 v key p u)
    unfolding rollback3
    rollback3-Gone v u h = elim (Bool-cases (key.gateway == 0)) [
      | inl e ↦ rw e (rollback4-Gone u h)
      | inr e ↦ rw e (
          Returns-follow _ (λ _. Gone) (ntb_neigh_del u v key.gateway) _
            (Returns-and _ _ (ntb_neigh_del u v key.gateway)
              (ntb_neigh_del-IsBounded limit u v key.gateway h.neighs)
              (ntb_neigh_del-SameRoutes u v key.gateway h.neighs.0))
            λ r u' s. rollback4-Gone u' (Near-neigh u u' h s.1 s.0))
    ]

    -- What the steps after the entry of the key end with.
    abbrev pub Step : ℤ → World env → Type 0
    Step (pos r) u = Has 0 u
    Step (negsuc r) u = Gone u

    nhop_alloc-Step :
        (v neigh_oid : ℕ) (u : World env)
        → Near limit w key p u
        → env.nhop.lookup u.nhop_tbl key ≡ some p
        → Returns Step (nhop_alloc v key p neigh_oid u)
    unfolding nhop_alloc
    nhop_alloc-Step v neigh_oid u h at = go ((env.hal.nhop_alloc_oid u.hw).0) refl
      where
        after : World env
        after = record u { hw = (env.hal.nhop_alloc_oid u.hw).2 }

        near : Near limit w key p after
        near = record {
          neighs = h.neighs;
          keys = h.keys;
          objects = h.objects;
          rib = h.rib;
          fb = h.fb;
          fib_res = h.fib_res;
        }

        go :
            (ret : ℤ)
            → (env.hal.nhop_alloc_oid u.hw).0 ≡ ret
            → Returns Step (nhop_alloc v key p neigh_oid u)
        go (negsuc r) e = rw e (
            Returns-follow _ Step (rollback3 v key p after) _ (rollback3-Gone v after near)
              (λ _ w' s. s))
        go (pos r) e = rw e (record {
          near = Near-write after _ near;
          key_at = at;
          object = (_, update_self after.nhops p _, refl);
        })

    pub nhop_neigh-Step :
        (v : ℕ) (u : World env)
        → Near limit w key p u
        → env.nhop.lookup u.nhop_tbl key ≡ some p
        → NeighRoom v key u
        → (b : ℕ) → AtMost b u.neighs
        → b + 1 ≤ limit
        → Returns Step (nhop_neigh v key p u)
    unfolding nhop_neigh
    nhop_neigh-Step v u h at room b small le = elim (Bool-cases (key.gateway == 0)) [
      | inl e ↦ rw e (nhop_alloc-Step v 0 u h at)
      | inr e ↦ rw e (
          Returns-follow _ Step (ntb_neigh_add u v key.gateway) _
            (Returns-and _ _ (ntb_neigh_add u v key.gateway)
              (ntb_neigh_add-IsBounded b u v key.gateway (h.neighs.0, small) room)
              (ntb_neigh_add-SameRoutes u v key.gateway h.neighs.0))
            λ (ret, oid) u' s.
              step ret oid u'
                (Near-neigh u u' h s.1 (s.0.0, AtMost-mono (b + 1) limit u'.neighs le s.0.1))
                (ap (λ t. env.nhop.lookup t key) s.1.nhop_tbl ∙ at))
    ]
      where
        step :
            (ret : ℤ) (oid : Option ℕ) (u' : World env)
            → Near limit w key p u'
            → env.nhop.lookup u'.nhop_tbl key ≡ some p
            → Returns Step (
                if is_neg ret
                then ok (ret, rollback4 key p u')
                else nhop_alloc v key p (elim oid [ none ↦ 0 | some o ↦ o ]) u')
        step (negsuc r) oid u' h' at' = rollback4-Gone u' h'
        step (pos r) oid u' h' at' = nhop_alloc-Step v _ u' h' at'

    -- One use more.
    pub nhop_use-Has :
        (count : ℕ) (u : World env) → Has count u → Returns (λ _. Has (inc32 count)) (nhop_use p u)
    unfolding nhop_use
    nhop_use-Has count u h =
        let (n, live, uses) = h.object in
        rw (live, nhop_use)
          (record {
            near = Near-write u _ h.near;
            key_at = h.key_at;
            object = (_, update_self u.nhops p _, ap inc32 uses);
          })
