-- ===== src/Route/Rib/Uses.antt =====
-- agent/route.c: nhop_obj_create and the invariant of the routes.

use mathlib.Core.Option.{some-injective}
use tao_p4code.Base.{
  ℕ, ℤ, pos, negsuc, ◌+◌, ◌≤◌, ◌^◌, ◌<◌, ◌≡◌, ◌≢◌, sym, ap, ◌∙◌, inl, inr, Option, none, some,
  arith, inc32, ==_refl, Bool-cases,
}
use tao_p4code.Base.Count.{count_below-none}
use tao_p4code.Types.{RibKey, NhopEncapData}
use tao_p4code.World.{Env, World, Returns, Returns-mono, Returns-and}
use tao_p4code.Neigh.Bound.{AtMost}
use tao_p4code.Route.Nhop.{nhop_obj_create}
use tao_p4code.Route.Nhop.Safety.{BothSound, NeighRoom, NhopRoom}
use tao_p4code.Route.Nhop.Create.{Created, nhop_obj_create-IsSound}
use tao_p4code.Route.Nhop.Near.{Has}
use tao_p4code.Route.Nhop.Change.{Unchanged, Before, Counted, nhop_obj_create-Counted}
use tao_p4code.Route.Rib.{no_extra, one_extra, holder, holder-inv, uses, uses_le, IsRib, SameView}
use tao_p4code.Route.Rib.Same.{SameHops, IsRib-same, view-same}
use tao_p4code.Route.Rib.Hops.{Moved, IsRib-Moved, SameView-Moved}

pub one_extra_ne : (p q : ℕ) → q ≢ p → one_extra p q ≡ 0
one_extra_ne p q ne = ground arith

module _ {env : Env} where
  -- The RIB, the results and the routes stay.
  pub record Kept (w u : World env) : Type 0 where
    pub seen : SameView w u
    pub rib : u.rib ≡ w.rib
    pub fb : u.fb ≡ w.fb
    pub fib_res : u.fib_res ≡ w.fib_res

  -- The object of the key has a use that no result has yet, or nothing has changed.
  abbrev pub Gained : ℕ → World env → NhopEncapData → ℤ × Option ℕ → World env → Type 0
  Gained limit w key (pos r, some p) u =
      IsRib limit (one_extra p) u × Kept w u × (env.nhop.lookup u.nhop_tbl key ≡ some p)
  Gained limit w key (pos r, none) u = ⊥
  Gained limit w key (negsuc r, o) u = IsRib limit no_extra u × Kept w u

  pub Kept-Moved :
      (limit : ℕ) (before after : ℕ → ℕ) (w u : World env) (key : NhopEncapData) (p : ℕ)
      → IsRib limit before w
      → Moved limit before after w u key p
      → Kept w u
  Kept-Moved limit before after w u key p h m = record {
    seen = SameView-Moved limit before after w u key p h m;
    rib = m.near.rib;
    fb = m.near.fb;
    fib_res = m.near.fib_res;
  }

  -- A free address is in no table.
  no_key :
      (w : World env) (p : ℕ) (k : NhopEncapData)
      → BothSound w
      → w.nhops p ≡ none
      → env.nhop.lookup w.nhop_tbl k ≡ some p
      → ⊥
  no_key w p k s free at = let (n, live, own) = s.0.live k p at in cc

  -- No result leads to a free address.
  uses_free :
      (limit : ℕ) (extra : ℕ → ℕ) (w : World env) (p : ℕ)
      → IsRib limit extra w
      → w.nhops p ≡ none
      → uses w p ≡ 0
  uses_free limit extra w p h free = count_below-none (holder w p) env.fb.len λ i low.
      elim (Bool-cases (holder w p i)) [
        | inl e ↦
            let (taken, path) = holder-inv w p i e in
            let (k, at) = h.held p i low taken path in absurd (no_key w p k h.both free at)
        | inr e ↦ e
      ]

  module _ (v limit : ℕ) (key : NhopEncapData) (w : World env) where
    -- The uses of the object before are those by results.
    Before-uses : (p count : ℕ) → IsRib limit no_extra w → Before w key p count → count ≡ uses w p
    Before-uses p count h (inl (at, (n, live, e))) = sym e ∙ h.counted key p n at live ∙ omega arith
    Before-uses p count h (inr (gone, free, e)) = e ∙ sym (uses_free limit no_extra w p h free)

    Before-at :
        (p count q : ℕ) → Before w key p count → env.nhop.lookup w.nhop_tbl key ≡ some q → q ≡ p
    Before-at p count q (inl (at, rest)) e = cc
    Before-at p count q (inr (gone, rest, more)) e = cc

    Before-key :
        (p count : ℕ) (k : NhopEncapData)
        → BothSound w
        → Before w key p count
        → env.nhop.lookup w.nhop_tbl k ≡ some p
        → k ≡ key
    Before-key p count k s (inl (at, rest)) e = s.0.apart k key p e at
    Before-key p count k s (inr (gone, free, zero_count)) e = absurd (no_key w p k s free e)

    gained :
        (p count : ℕ) (u : World env)
        → env.fb.len + 1 < 2 ^ 32
        → IsRib limit no_extra w
        → Before w key p count
        → Has limit w key p (inc32 count) u
        → BothSound u
        → Moved limit no_extra (one_extra p) w u key p
    gained p count u room h b has s =
        let (n, live, e) = has.object in
        record {
          near = has.near;
          both = s;
          old_at = λ q at. Before-at p count q b at;
          new_at = λ q at. let at' = has.key_at in cc;
          old_key = λ k at. Before-key p count k h.both b at;
          stays = λ i low taken path. has.key_at;
          count = λ m at live'.
              let same : m.ref_count ≡ n.ref_count =
                ap (λ x. x.ref_count) (some-injective m n (sym live' ∙ live)) in
              ground (arith, same, e, Before-uses p count h b, uses_le w p, ==_refl p);
          rest = λ q ne. one_extra_ne p q ne;
        }

    Kept-Unchanged :
        (u : World env)
        → IsRib limit no_extra w
        → Unchanged limit w u
        → BothSound u
        → IsRib limit no_extra u × Kept w u
    Kept-Unchanged u h c s =
        let same : SameHops limit w u = record {
          both = s;
          most = c.neighs.1;
          keys = c.keys;
          objects = c.objects;
          fb = c.fb;
          fib_res = c.fib_res;
        } in
        let entry : (k : RibKey) → env.rib.lookup u.rib k ≡ env.rib.lookup w.rib k =
          λ k. ap (λ t. env.rib.lookup t k) c.rib in
        (
          IsRib-same limit no_extra w u h same (λ k z e. h.routed k z (sym (entry k) ∙ e))
              (λ j k id e f. h.apart j k id (sym (entry j) ∙ e) (sym (entry k) ∙ f)),
          record {
            seen = λ k. view-same limit no_extra w u h same k (entry k);
            rib = c.rib;
            fb = c.fb;
            fib_res = c.fib_res;
          },
        )

    -- In a state in which the invariant of the routes holds, where the array of results has
    -- fewer than 2 ^ 32 - 1 elements, the neighbour has room for one use more and no neighbour
    -- counter is above b, b + 1 <= limit, nhop_obj_create returns. Where its result is not
    -- negative, it gives a pointer that the table holds under the argument, and the count of
    -- every next hop is the number of results that lead to it, but for one use more of this one;
    -- where it is negative, the counts are as before. In both cases no neighbour counter is
    -- above limit, and the RIB, the results and the routes of all prefixes stay as they were.
    pub nhop_obj_create-Gained :
        IsRib limit no_extra w
        → env.fb.len + 1 < 2 ^ 32
        → NeighRoom v key w
        → (b : ℕ) → AtMost b w.neighs
        → b + 1 ≤ limit
        → Returns (Gained limit w key) (nhop_obj_create v key w)
    nhop_obj_create-Gained h room neigh_room b small le =
        Returns-mono _ (Gained limit w key) (nhop_obj_create v key w)
          (Returns-and (Created key) (Counted limit w key) (nhop_obj_create v key w)
            (nhop_obj_create-IsSound v key w h.both.0 h.both.1 nhop_room neigh_room)
            (nhop_obj_create-Counted v limit key w (h.both.1, h.most)
              (λ p at. let (n, live, own) = h.both.0.live key p at in (n, live)) neigh_room b small
              le))
          (λ (ret, o) u c. step ret o u c.0 c.1)
      where
        nhop_room : NhopRoom key w
        nhop_room p n at live = omega (arith, h.counted key p n at live, uses_le w p)

        step :
            (ret : ℤ) (o : Option ℕ) (u : World env)
            → Created key (ret, o) u
            → Counted limit w key (ret, o) u
            → Gained limit w key (ret, o) u
        step (pos r) none u c d = absurd c
        step (pos r) (some p) u (s, at) (count, b, has) =
            let m = gained p count u room h b has s in
            (
              IsRib-Moved limit no_extra (one_extra p) w u key p h m,
              Kept-Moved limit no_extra (one_extra p) w u key p h m,
              at,
            )
        step (negsuc r) o u s c = Kept-Unchanged u h c s
