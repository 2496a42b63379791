-- ===== src/Vrf/Remove/Deleted.antt =====
-- agent/vrf.c: the state after ntb_vrf_del.

use tao_p4code.Base.{
  ℕ, pos, ◌≡◌, ◌≢◌, refl, ap, ◌∙◌, sym, none, some, inl, inr, List, true, arith, eq_of_bytes_eq,
  update_self, pred_ℤ, Option-cases,
}
use mathlib.Core.Bool.{true≢false}
use tao_p4code.Dpdk.Owned.{update_ne}
use tao_p4code.Dpdk.Walk.{Walks}
use tao_p4code.Types.{RibKey, ntb_nr_vrf}
use tao_p4code.World.{Env, World, Vrf, VrfDp, set_dp, Returns, Returns-follow}
use tao_p4code.Route.Rib.{no_extra, IsRib, view}
use tao_p4code.Route.Lookup.{ntb_route_cleanup}
use tao_p4code.Route.Lookup.Emptied.{Emptied, NoneLeft, ntb_route_cleanup-Emptied}
use tao_p4code.Tunnel.{ntb_tunnel_map_cleanup}
use tao_p4code.Tunnel.Cleared.{
  IsLive, SameTable, SameTable-trans, set_dp-SameTable, SameRib, other-SameRib, Cleared,
  ntb_tunnel_map_cleanup-Cleared,
}
use tao_p4code.Vrf.Table.{vrf_named, find_vrf, ntb_vrf_lookup}
use tao_p4code.Vrf.Table.Loops.{find_vrf_sound}
use tao_p4code.Vrf.Table.Invariant.{IsTable}
use tao_p4code.Vrf.Table.Fewer.{Fewer, Fewer-IsTable}
use tao_p4code.Vrf.Remove.{ntb_vrf_dp_dtor, vrf_clear, ntb_vrf_del}

module _ {env : Env} where
  -- The routes of the VRF are gone, the others are as they were, and the table is the same.
  pub record Left (limit id : ℕ) (w u : World env) : Type 0 where
    pub table : SameTable w u
    pub rib : IsRib limit no_extra u
    pub gone : NoneLeft id u
    pub others : (k : RibKey) → k.vrf_id ≢ id → view u k ≡ view w k

  Left-next :
      (limit id : ℕ) (w x u : World env)
      → Left limit id w x
      → SameTable x u
      → SameRib limit x u
      → Left limit id w u
  Left-next limit id w x u l t r = record {
    table = SameTable-trans w x u l.table t;
    rib = r.rib;
    gone = λ k own. ap (λ y. env.rib.lookup y k) r.entries ∙ l.gone k own;
    others = λ k ne. r.views k ∙ l.others k ne;
  }

  -- The counter and the name of the VRF go.
  vrf_clear-Fewer : (i : ℕ) (w u : World env) → SameTable w u → Fewer i w (vrf_clear i u)
  vrf_clear-Fewer i w u s = record {
    off = ap (λ v. v.valid) (update_self u.vrfs i _);
    valid = λ j ne. ap (λ v. v.valid) (update_ne u.vrfs i j _ ne) ∙ s.valid j;
    name = λ j ne. ap (λ v. v.name) (update_ne u.vrfs i j _ ne) ∙ s.name j;
    counter = ap pred_ℤ s.vrf_n;
  }

  named-valid : (v : Vrf env) (name : List ℕ) → vrf_named v name ≡ true → v.valid ≡ true
  named-valid v name e = ground arith

  -- Its name is what `strcmp` reads.
  IsTable-name :
      (w : World env) (i : ℕ) (name : List ℕ)
      → IsTable w
      → vrf_named (w.vrfs i) name ≡ true
      → (w.vrfs i).name ≡ name
  IsTable-name w i name t named =
      let fits = t.fits i (named-valid (w.vrfs i) name named) in
      eq_of_bytes_eq (w.vrfs i).name name (ground (arith, fits, named))

  module _ (walks : Walks env.rib) (limit i : ℕ) where
    ntb_vrf_dp_dtor-Left :
        (id : ℕ) (w : World env)
        → IsRib limit no_extra w
        → (w.vrfs i).dp.vrf_id ≡ id
        → IsLive w.tunnels (w.vrfs i).dp.tunnel_rmap
        → Returns (λ _. Left limit id w) (ntb_vrf_dp_dtor i w)
    unfolding ntb_vrf_dp_dtor
    ntb_vrf_dp_dtor-Left id w h is live =
        Returns-follow (λ ret x. (ret ≡ pos 0) × Emptied limit id w x) (λ _. Left limit id w)
          (ntb_route_cleanup i w) _ (ntb_route_cleanup-Emptied walks limit i id w h is)
          (λ _ x (_, ((h', s, o), gone)).
            let l : Left limit id w x = record {
              table = record { name = s.name; valid = s.valid; vrf_id = s.vrf_id; vrf_n = s.vrf_n };
              rib = h';
              gone = gone;
              others = o;
            } in
            let live' : IsLive x.tunnels (x.vrfs i).dp.tunnel_rmap =
              rw (s.tunnels, s.tunnel_rmap i) live in
            Returns-follow (λ ret u. (ret ≡ pos 0) × Cleared limit x u) (λ _. Left limit id w)
              (ntb_tunnel_map_cleanup i x) _ (ntb_tunnel_map_cleanup-Cleared i limit x h' live')
              (λ _ u (_, (t, r)).
                let d : VrfDp env = record ((u.vrfs i).dp) { internal_ip = 0 } in
                let y = set_dp u i d in
                Left-next limit id w u y (Left-next limit id w x u l t r)
                  (set_dp-SameTable u i d refl)
                  (other-SameRib limit u y.vrfs u.vrf_n u.tunnels r.rib)))

    -- How the state `u` after the deletion of the VRF `i` stands to the state `w` before it.
    pub record VrfDeleted (name : List ℕ) (w u : World env) : Type 0 where
      pub table : IsTable u
      pub rib : IsRib limit no_extra u
      pub fewer : Fewer i w u
      pub nameless : ntb_vrf_lookup u name ≡ none
      pub gone : NoneLeft (w.vrfs i).dp.vrf_id u
      pub others : (k : RibKey) → k.vrf_id ≢ (w.vrfs i).dp.vrf_id → view u k ≡ view w k

    Left-VrfDeleted :
        (name : List ℕ) (w u : World env)
        → IsTable w
        → ntb_vrf_lookup w name ≡ some i
        → Left limit (w.vrfs i).dp.vrf_id w u
        → VrfDeleted name w (vrf_clear i u)
    unfolding ntb_vrf_lookup
    Left-VrfDeleted name w u t found l =
        let (_, low, named) = find_vrf_sound w.vrfs name ntb_nr_vrf 0 i found in
        let f = vrf_clear-Fewer i w u l.table in
        let x = vrf_clear i u in
        let r = other-SameRib limit u x.vrfs x.vrf_n u.tunnels l.rib in
        let valid = named-valid (w.vrfs i) name named in
        let t' = Fewer-IsTable w x i t (omega (arith, low)) valid f in
        record {
          table = t';
          rib = r.rib;
          fewer = f;
          nameless = elim (Option-cases (find_vrf x.vrfs name ntb_nr_vrf 0)) [
            | inl e ↦ e
            | inr (j, e) ↦
                let (_, low', named') = find_vrf_sound x.vrfs name ntb_nr_vrf 0 j e in
                let valid' = named-valid (x.vrfs j) name named' in
                let ne : j ≢ i =
                  λ same. true≢false (sym valid' ∙ ap (λ k. (x.vrfs k).valid) same ∙ f.off) in
                let same : (w.vrfs j).name ≡ (w.vrfs i).name =
                  sym (f.name j ne)
                  ∙ IsTable-name x j name t' named'
                  ∙ sym (IsTable-name w i name t named) in
                absurd (
                  ne (
                    t.apart j i (omega (arith, low')) (omega (arith, low))
                      (sym (f.valid j ne) ∙ valid') valid same))
          ];
          gone = l.gone;
          others = λ k ne. r.views k ∙ l.others k ne;
        }

    -- Where the RIB holds each entry at a position of its own and the iteration passes them in
    -- that order, the invariants of the routes and of the array of VRFs hold, and each tunnel in
    -- the list of the VRF that the name finds lives and stands there once, ntb_vrf_del of the
    -- name returns 0. After it no VRF in use has the name, the VRF is not in use, the count is
    -- one less, no prefix of its id has a route left, every other VRF is in use or not as before
    -- and has its name, the prefixes of other ids have the routes that they had, and both
    -- invariants hold.
    pub ntb_vrf_del-VrfDeleted :
        (name : List ℕ) (w : World env)
        → IsRib limit no_extra w
        → IsTable w
        → ntb_vrf_lookup w name ≡ some i
        → IsLive w.tunnels (w.vrfs i).dp.tunnel_rmap
        → Returns (λ ret u. (ret ≡ pos 0) × VrfDeleted name w u) (ntb_vrf_del name w)
    unfolding ntb_vrf_del
    ntb_vrf_del-VrfDeleted name w h t found live =
        rw (found, ntb_vrf_del)
          (Returns-follow (λ _. Left limit (w.vrfs i).dp.vrf_id w) _ (ntb_vrf_dp_dtor i w) _
            (ntb_vrf_dp_dtor-Left (w.vrfs i).dp.vrf_id w h refl live)
            (λ _ u l. (refl, Left-VrfDeleted name w u t found l)))
