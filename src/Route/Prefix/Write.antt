-- ===== src/Route/Prefix/Write.antt =====
-- A new prefix is entered in the RIB and in the FIB of its VRF.
use native.Mathlib.Decide.{ℕ_discrete}
use tao_p4code.Base.{
  ◌≢◌, ℕ, ℤ, pos, negsuc, ◌<◌, ◌≡◌, ◌⊎◌, refl, sym, ap, ◌∙◌, inl, inr, true, none, some,
  Option-cases, is_neg, update_self, if◌then◌else◌, ◌==◌, arith, subst,
}
use tao_p4code.Types.{RibKey, PrefixType, rt_prefix_lpm, FibRes, FibNhop}
use tao_p4code.World.{Env, World, Vrf, ok, M, pure, ◌>>=◌, ◌>>◌, get, put, Returns, bind}
use tao_p4code.Route.Result.{fib_res_get}
use tao_p4code.Route.Result.Single.{SameNhops, OnePath}
use tao_p4code.Route.Prefix.{
  mpath_load, host_type, rt_prefix_type_get, rib_rollback, prefix_write, rt_prefix_obj_update,
  prefix_erase, rt_prefix_obj_delete,
}

pub RibKey-discrete : Discrete RibKey
RibKey-discrete = hlevel ℕ_discrete

module _ {env : Env} where
  pub get-eq :
      (w : World env) (id : ℕ) → id < env.fb.len → fib_res_get (pos id) w ≡ ok (w.fib_res id, w)
  get-eq w id low = ground arith

  load-one :
      (w : World env) (id p : ℕ) (n : FibNhop)
      → OnePath w id p
      → w.nhops p ≡ some n
      → mpath_load (w.fib_res id) 0 w ≡ ok (n, w)
  unfolding mpath_load
  load-one w id p n h live = rw (h.path, mpath_load) (rw live refl)

  type_get-one :
      (w : World env) (pfx : RibKey) (id p : ℕ) (n : FibNhop)
      → OnePath w id p
      → w.nhops p ≡ some n
      → rt_prefix_type_get pfx (pos id) w ≡ ok (host_type pfx n, w)
  unfolding rt_prefix_type_get
  type_get-one w pfx id p n h live =
      bind {w = w} (fib_res_get (pos id)) type_rest (get-eq w id h.low)
      ∙ rw h.count (
          bind (mpath_load (w.fib_res id) 0) (λ n'. pure (host_type pfx n'))
            (load-one w id p n h live))
    where
      type_rest : FibRes → M env PrefixType
      type_rest r =
          if r.mpath_cnt == 1
          then (mpath_load r 0 >>= λ n'. pure (host_type pfx n'))
          else pure rt_prefix_lpm

  -- The prefix leads to the result `id`, in the RIB and in the FIB of the VRF `v`.
  pub record Routed (u : World env) (v : ℕ) (pfx : RibKey) (id : ℕ) : Type 0 where
    pub rib : env.rib.lookup u.rib pfx ≡ some (pos id)
    pub fib :
        env.fib.route (u.vrfs v).dp.fib (env.be_to_cpu pfx.prefix4) pfx.prefixlen ≡ some (pos id)

  -- The states agree on the results, besides the next hops.
  pub record SameResults (w u : World env) : Type 0 where
    pub fb : u.fb ≡ w.fb
    pub fib_res : u.fib_res ≡ w.fib_res
    pub nhops : SameNhops w u

  -- The entry of the prefix succeeds, or it fails and a new prefix is rolled back. The results, the
  -- next hops and the other prefixes stay as they are.
  abbrev pub Written : World env → ℕ → RibKey → ℕ → ℤ → World env → Type 0
  Written w v pfx id ret u =
      SameResults w u
      × (((is_neg ret ≡ true)
            × (env.rib.lookup w.rib pfx ≡ none
                → (k : RibKey) → env.rib.lookup u.rib k ≡ env.rib.lookup w.rib k))
          ⊎ ((ret ≡ pos 0)
              × Routed u v pfx id
              × ((k : RibKey) → k ≢ pfx → env.rib.lookup u.rib k ≡ env.rib.lookup w.rib k)))

  write-Written :
      (w : World env) (v : ℕ) (pfx : RibKey) (id : ℕ)
      → let r = prefix_write v pfx (negsuc 0) (pos id) w in Written w v pfx id r.0 r.1
  unfolding prefix_write rib_rollback
  write-Written w v pfx id = elim (Option-cases (env.rib.add w.rib pfx (pos id))) [
    | inl e ↦ rw (e, prefix_write) (same w.rib w.vrfs, inl (refl, λ _ k. refl))
    | inr (rib, e) ↦
        elim (Option-cases
          (env.fib.add (w.vrfs v).dp.fib (env.be_to_cpu pfx.prefix4) pfx.prefixlen (pos id))) [
            | inl f ↦
                rw (e, f, prefix_write)
                  (same (env.rib.del rib pfx) w.vrfs, inl (refl, λ new k. rolled_back rib e new k))
            | inr (fib, f) ↦
                rw (e, f, prefix_write)
                  (
                    same rib _,
                    inr (
                      refl,
                      record {
                        rib = env.rib.lookup-add_self w.rib rib pfx (pos id) e;
                        fib =
                            ap
                              (λ x.
                                env.fib.route x.dp.fib (env.be_to_cpu pfx.prefix4) pfx.prefixlen)
                              (update_self w.vrfs v _)
                            ∙ env.fib.route-add_self (w.vrfs v).dp.fib fib _ _ (pos id) f;
                      },
                      λ k ne. env.rib.lookup-add_ne w.rib rib pfx k (pos id) e ne,
                    ),
                  )
          ]
  ]
    where
      rolled_back :
          (rib : env.rib.Tbl)
          → env.rib.add w.rib pfx (pos id) ≡ some rib
          → env.rib.lookup w.rib pfx ≡ none
          → (k : RibKey) → env.rib.lookup (env.rib.del rib pfx) k ≡ env.rib.lookup w.rib k
      rolled_back rib e new k = elim (RibKey-discrete k pfx) [
        | yes h ↦ rw h (env.rib.lookup-del_self rib pfx ∙ sym new)
        | no ne ↦
            env.rib.lookup-del_ne rib pfx k ne ∙ env.rib.lookup-add_ne w.rib rib pfx k (pos id) e ne
      ]

      same :
          (rib : env.rib.Tbl) (vrfs : ℕ → Vrf env)
          → SameResults w (record w { rib = rib; vrfs = vrfs })
      same rib vrfs = record {
        fb = refl;
        fib_res = refl;
        nhops = record { nhop_tbl = refl; nhops = refl; neigh_tbl = refl; neighs = refl };
      }

  pub rt_prefix_obj_update-Written :
      (w : World env) (v : ℕ) (pfx : RibKey) (id p : ℕ) (n : FibNhop)
      → OnePath w id p
      → w.nhops p ≡ some n
      → Returns (Written w v pfx id) (rt_prefix_obj_update v pfx (negsuc 0) (pos id) w)
  unfolding rt_prefix_obj_update
  rt_prefix_obj_update-Written w v pfx id p n h live =
      subst (Returns (Written w v pfx id))
        (sym (
          bind {w = w} (rt_prefix_type_get pfx (pos id)) (λ _. get >>= write)
            (type_get-one w pfx id p n h live)))
        (write-Written w v pfx id)
    where
      write : World env → M env ℤ
      write u = let r = prefix_write v pfx (negsuc 0) (pos id) u in put r.1 >> pure r.0

  -- The entry of the prefix goes; the results, the next hops and the other prefixes stay.
  pub record Erased (w u : World env) (pfx : RibKey) : Type 0 where
    pub same : SameResults w u
    pub gone : env.rib.lookup u.rib pfx ≡ none
    pub others : (k : RibKey) → k ≢ pfx → env.rib.lookup u.rib k ≡ env.rib.lookup w.rib k

  pub rt_prefix_obj_delete-Erased :
      (w : World env) (v : ℕ) (pfx : RibKey) (id p : ℕ) (n : FibNhop)
      → OnePath w id p
      → w.nhops p ≡ some n
      → Returns (λ _ u. Erased w u pfx) (rt_prefix_obj_delete v pfx (pos id) w)
  unfolding rt_prefix_obj_delete
  rt_prefix_obj_delete-Erased w v pfx id p n h live =
      subst (Returns (λ _ u. Erased w u pfx))
        (sym (
          bind {w = w} (rt_prefix_type_get pfx (pos id))
            (λ _. get >>= λ u. put (prefix_erase v pfx u) >> pure (env.rib.del_ret u.rib pfx))
            (type_get-one w pfx id p n h live)))
        (record {
          same = record {
            fb = refl;
            fib_res = refl;
            nhops = record { nhop_tbl = refl; nhops = refl; neigh_tbl = refl; neighs = refl };
          };
          gone = env.rib.lookup-del_self w.rib pfx;
          others = λ k ne. env.rib.lookup-del_ne w.rib pfx k ne;
        })
