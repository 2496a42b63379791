-- ===== src/Route/Nhop/Change.antt =====
-- agent/route.c: the next hops before and after nhop_obj_create.
use native.Mathlib.Decide.{ℕ_discrete}
use tao_p4code.Base.{
  ℕ, ℤ, pos, negsuc, ◌+◌, ◌≤◌, ◌≡◌, ◌⊎◌, refl, sym, ◌∙◌, Option, none, some, inl, inr,
  if◌then◌else◌, Option-cases, is_neg, update, inc32,
}
use tao_p4code.Types.{NhopEncapData, FibNhop}
use tao_p4code.Dpdk.Owned.{update_ne}
use tao_p4code.World.{Env, World, Returns, Returns-follow}
use tao_p4code.Neigh.Bound.{IsBounded, AtMost}
use tao_p4code.Route.Nhop.{nhop_of, nhop_neigh, nhop_new, created_step, nhop_use, nhop_obj_create}
use tao_p4code.Route.Nhop.Safety.{NhopKey-discrete, NeighRoom}
use tao_p4code.Route.Nhop.Near.{Near, Gone, Has, Step, nhop_neigh-Step, nhop_use-Has}

module _ {env : Env} where
  -- The states hold the same next hops under the same keys, and the same routes.
  pub record Unchanged (limit : ℕ) (w u : World env) : Type 0 where
    pub neighs : IsBounded limit u
    pub keys : (k : NhopEncapData) → env.nhop.lookup u.nhop_tbl k ≡ env.nhop.lookup w.nhop_tbl k
    pub objects : (q : ℕ) → u.nhops q ≡ w.nhops q
    pub rib : u.rib ≡ w.rib
    pub fb : u.fb ≡ w.fb
    pub fib_res : u.fib_res ≡ w.fib_res

  -- The uses of the object of the key: `count`, at `p`, or none where the key is not in the table
  -- and `p` is free.
  abbrev pub Before : World env → NhopEncapData → ℕ → ℕ → Type 0
  Before w key p count =
      ((env.nhop.lookup w.nhop_tbl key ≡ some p)
        × ((n : FibNhop) × (w.nhops p ≡ some n) × (n.ref_count ≡ count)))
      ⊎ ((env.nhop.lookup w.nhop_tbl key ≡ none) × (w.nhops p ≡ none) × (count ≡ 0))

  abbrev pub Counted : ℕ → World env → NhopEncapData → ℤ × Option ℕ → World env → Type 0
  Counted limit w key (pos r, some p) u =
      (count : ℕ) × Before w key p count × Has limit w key p (inc32 count) u
  Counted limit w key (pos r, none) u = ⊥
  Counted limit w key (negsuc r, o) u = Unchanged limit w u

  pub Near-start :
      (limit : ℕ) (w : World env) (key : NhopEncapData) (p : ℕ)
      → IsBounded limit w
      → Near limit w key p w
  Near-start limit w key p s = record {
    neighs = s;
    keys = λ k ne. refl;
    objects = λ q ne. refl;
    rib = refl;
    fb = refl;
    fib_res = refl;
  }

  -- The table gets the key and the heap the object.
  Near-enter :
      (limit : ℕ) (w : World env) (key : NhopEncapData) (p : ℕ) (tbl : env.nhop.Tbl) (n : FibNhop)
      → IsBounded limit w
      → env.nhop.add w.nhop_tbl key p ≡ some tbl
      → Near limit w key p (record w { nhop_tbl = tbl; nhops = update w.nhops p (some n) })
  Near-enter limit w key p tbl n s added = record {
    neighs = s;
    keys = λ k ne. env.nhop.lookup-add_ne w.nhop_tbl tbl key k p added ne;
    objects = λ q ne. update_ne w.nhops p q (some n) ne;
    rib = refl;
    fb = refl;
    fib_res = refl;
  }

  Gone-Unchanged :
      (limit : ℕ) (w : World env) (key : NhopEncapData) (p : ℕ) (u : World env)
      → env.nhop.lookup w.nhop_tbl key ≡ none
      → w.nhops p ≡ none
      → Gone limit w key p u
      → Unchanged limit w u
  Gone-Unchanged limit w key p u no_key free g = record {
    neighs = g.near.neighs;
    keys = λ k. elim (NhopKey-discrete k key) [
      | yes e ↦ rw e (g.key_gone ∙ sym no_key)
      | no ne ↦ g.near.keys k ne
    ];
    objects = λ q. elim (ℕ_discrete q p) [
      | yes e ↦ rw e (g.object_gone ∙ sym free)
      | no ne ↦ g.near.objects q ne
    ];
    rib = g.near.rib;
    fb = g.near.fb;
    fib_res = g.near.fib_res;
  }

  module _ (v limit : ℕ) (key : NhopEncapData) (w : World env) (s : IsBounded limit w) where
    Unchanged-start : Unchanged limit w w
    Unchanged-start = record {
      neighs = s;
      keys = λ k. refl;
      objects = λ q. refl;
      rib = refl;
      fb = refl;
      fib_res = refl;
    }

    -- What nhop_new returns: an object with no use yet, or nothing has changed.
    abbrev Fresh : ℤ × Option ℕ → World env → Type 0
    Fresh (pos r, some p) u = Before w key p 0 × Has limit w key p 0 u
    Fresh (pos r, none) u = ⊥
    Fresh (negsuc r, some p) u = ⊥
    Fresh (negsuc r, none) u = Unchanged limit w u

    nhop_new-Fresh :
        env.nhop.lookup w.nhop_tbl key ≡ none
        → NeighRoom v key w
        → (b : ℕ) → AtMost b w.neighs
        → b + 1 ≤ limit
        → Returns Fresh (nhop_new v key w)
    unfolding nhop_new
    nhop_new-Fresh no_key room b small le = elim (Option-cases (env.zmalloc w.nhops)) [
      | inl e ↦ rw (e, nhop_new) Unchanged-start
      | inr (p, e) ↦ elim (Option-cases (env.nhop.add w.nhop_tbl key p)) [
        | inl f ↦ rw (e, f, nhop_new) Unchanged-start
        | inr (tbl, f) ↦
            rw (e, f, nhop_new)
              (Returns-follow (Step limit w key p) Fresh (nhop_neigh v key p (entering p tbl)) _
                (nhop_neigh-Step limit w key p v (entering p tbl)
                  (Near-enter limit w key p tbl (nhop_of key) s f)
                  (env.nhop.lookup-add_self w.nhop_tbl tbl key p f) room b small le)
                λ ret u h. step p (env.zmalloc_fresh w.nhops p e) ret u h)
      ]
    ]
      where
        entering : ℕ → env.nhop.Tbl → World env
        entering p tbl = record w { nhop_tbl = tbl; nhops = update w.nhops p (some (nhop_of key)) }

        step :
            (p : ℕ)
            → w.nhops p ≡ none
            → (ret : ℤ) (u : World env) → Step limit w key p ret u
            → Fresh (ret, if is_neg ret then none else some p) u
        step p free (pos r) u h = (inr (no_key, free, refl), h)
        step p free (negsuc r) u h = Gone-Unchanged limit w key p u no_key free h

    -- Where it returns no error, nhop_obj_create gives the object of the key one use more, and changes
    -- no other object; where it returns an error, it changes no next hop.
    pub nhop_obj_create-Counted :
        ((p : ℕ) → env.nhop.lookup w.nhop_tbl key ≡ some p → (n : FibNhop) × (w.nhops p ≡ some n))
        → NeighRoom v key w
        → (b : ℕ) → AtMost b w.neighs
        → b + 1 ≤ limit
        → Returns (Counted limit w key) (nhop_obj_create v key w)
    unfolding nhop_obj_create
    nhop_obj_create-Counted owned room b small le =
        elim (Option-cases (env.nhop.lookup w.nhop_tbl key)) [
          | inl e ↦
              rw (e, nhop_obj_create)
                (Returns-follow Fresh (Counted limit w key) (nhop_new v key w) _
                  (nhop_new-Fresh e room b small le) step)
          | inr (p, e) ↦
              let (n, live) = owned p e in
              rw (e, nhop_obj_create)
                (Returns-follow _ (Counted limit w key) (nhop_use p w) _
                  (nhop_use-Has limit w key p n.ref_count w (record {
                    near = Near-start limit w key p s;
                    key_at = e;
                    object = (n, live, refl);
                  }))
                  (λ _ u h. (n.ref_count, inl (e, (n, live, refl)), h)))
        ]
      where
        step :
            (a : ℤ × Option ℕ) (u : World env)
            → Fresh a u
            → Returns (Counted limit w key) (created_step a u)
        step (pos r, some p) u h =
            Returns-follow _ (Counted limit w key) (nhop_use p u) _
              (nhop_use-Has limit w key p 0 u h.1) (λ _ u' k. (0, h.0, k))
        step (pos r, none) u h = absurd h
        step (negsuc r, some p) u h = absurd h
        step (negsuc r, none) u h = h
