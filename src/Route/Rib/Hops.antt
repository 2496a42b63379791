-- ===== src/Route/Rib/Hops.antt =====
-- The invariant of the routes when a next hop gets a use or loses one.

use tao_p4code.Base.{ℕ, ◌+◌, ◌<◌, ◌≡◌, ◌≢◌, sym, ap, ◌∙◌, ◌&&◌, true, some, [], ◌∷◌, subst}
use tao_p4code.Base.Count.{count_below}
use tao_p4code.Types.{NhopEncapData, FibNhop}
use tao_p4code.World.{Env, World}
use tao_p4code.Route.Nhop.Safety.{BothSound, NhopKey-discrete}
use tao_p4code.Route.Nhop.Near.{Near}
use tao_p4code.Route.Result.Single.{IsPlain}
use tao_p4code.Route.Rib.{path_is, uses, IsRib, SameView, view-keep}

module _ {env : Env} where
  -- What a change of the next hop `p`, under the key `key`, keeps of the invariant. `before` and
  -- `after` count the uses beside those by results.
  pub record Moved (limit : ℕ) (before after : ℕ → ℕ) (w u : World env) (key : NhopEncapData)
      (p : ℕ) : Type 0 where
    pub near : Near limit w key p u
    pub both : BothSound u
    pub old_at : (q : ℕ) → env.nhop.lookup w.nhop_tbl key ≡ some q → q ≡ p
    pub new_at : (q : ℕ) → env.nhop.lookup u.nhop_tbl key ≡ some q → q ≡ p
    pub old_key : (k : NhopEncapData) → env.nhop.lookup w.nhop_tbl k ≡ some p → k ≡ key
    pub stays :
        (i : ℕ)
        → i < env.fb.len
        → env.fb.used w.fb i ≡ true
        → (w.fib_res i).mpath ≡ some p ∷ []
        → env.nhop.lookup u.nhop_tbl key ≡ some p
    pub count :
        (n : FibNhop)
        → env.nhop.lookup u.nhop_tbl key ≡ some p
        → u.nhops p ≡ some n
        → n.ref_count ≡ uses w p + after p
    pub rest : (q : ℕ) → q ≢ p → after q ≡ before q

  module _ (limit : ℕ) (before after : ℕ → ℕ) (w u : World env) (key : NhopEncapData) (p : ℕ)
      (h : IsRib limit before w) (m : Moved limit before after w u key p) where
    uses-Moved : (q : ℕ) → uses u q ≡ uses w q
    uses-Moved q =
        ap (λ fb. count_below (λ i. env.fb.used fb i && path_is (u.fib_res i).mpath q) env.fb.len)
          m.near.fb
        ∙ ap (λ g. count_below (λ i. env.fb.used w.fb i && path_is (g i).mpath q) env.fb.len)
            m.near.fib_res

    -- A next hop that a result leads to keeps its key.
    key-Moved :
        (k : NhopEncapData) (q i : ℕ)
        → i < env.fb.len
        → env.fb.used w.fb i ≡ true
        → (w.fib_res i).mpath ≡ some q ∷ []
        → env.nhop.lookup w.nhop_tbl k ≡ some q
        → env.nhop.lookup u.nhop_tbl k ≡ some q
    key-Moved k q i low taken path at = elim (NhopKey-discrete k key) [
      | yes e ↦
          let q_p : q ≡ p = m.old_at q (subst (λ x. env.nhop.lookup w.nhop_tbl x ≡ some q) e at) in
          subst (λ x. env.nhop.lookup u.nhop_tbl x ≡ some q) (sym e)
            (subst (λ x. env.nhop.lookup u.nhop_tbl key ≡ some x) (sym q_p)
              (m.stays i low taken (path ∙ ap (λ x. some x ∷ []) q_p)))
      | no ne ↦ m.near.keys k ne ∙ at
    ]

    count-Moved :
        (k : NhopEncapData) (q : ℕ) (n : FibNhop)
        → env.nhop.lookup u.nhop_tbl k ≡ some q
        → u.nhops q ≡ some n
        → n.ref_count ≡ uses w q + after q
    count-Moved k q n at live = elim (NhopKey-discrete k key) [
      | yes e ↦
          let at' : env.nhop.lookup u.nhop_tbl key ≡ some q =
            subst (λ x. env.nhop.lookup u.nhop_tbl x ≡ some q) e at in
          let q_p : q ≡ p = m.new_at q at' in
          subst (λ x. n.ref_count ≡ uses w x + after x) (sym q_p)
            (m.count n (at' ∙ ap some q_p) (ap u.nhops (sym q_p) ∙ live))
      | no ne ↦
          let at' : env.nhop.lookup w.nhop_tbl k ≡ some q = sym (m.near.keys k ne) ∙ at in
          let q_ne : q ≢ p = λ e. ne (m.old_key k (at' ∙ ap some e)) in
          h.counted k q n at' (sym (m.near.objects q q_ne) ∙ live)
          ∙ ap (λ x. uses w q + x) (sym (m.rest q q_ne))
    ]

    pub IsRib-Moved : IsRib limit after u
    IsRib-Moved = record {
      both = m.both;
      most = m.near.neighs.1;
      held = λ q i low taken path.
          let taken' : env.fb.used w.fb i ≡ true =
            ap (λ a. env.fb.used a i) (sym m.near.fb) ∙ taken in
          let path' : (w.fib_res i).mpath ≡ some q ∷ [] =
            ap (λ g. (g i).mpath) (sym m.near.fib_res) ∙ path in
          let (k, at) = h.held q i low taken' path' in (k, key-Moved k q i low taken' path' at);
      counted =
          λ k q n at live. count-Moved k q n at live ∙ ap (λ x. x + after q) (sym (uses-Moved q));
      routed = λ k z e.
          let r = h.routed k z (ap (λ t. env.rib.lookup t k) (sym m.near.rib) ∙ e) in
          record {
            id = r.id;
            at = r.at;
            is = r.is;
            low = r.low;
            taken = ap (λ a. env.fb.used a r.id) m.near.fb ∙ r.taken;
            path = ap (λ g. (g r.id).mpath) m.near.fib_res ∙ r.path;
            plain = subst (λ x. IsPlain x) (ap (λ g. g r.id) (sym m.near.fib_res)) r.plain;
          };
      apart = λ j k id e f.
          h.apart j k id (ap (λ t. env.rib.lookup t j) (sym m.near.rib) ∙ e)
            (ap (λ t. env.rib.lookup t k) (sym m.near.rib) ∙ f);
    }

    pub SameView-Moved : SameView w u
    SameView-Moved k =
        view-keep limit before w u k h m.both (ap (λ t. env.rib.lookup t k) m.near.rib) (λ r. (
          ap (λ g. (g r.id).mpath) m.near.fib_res ∙ r.path,
          key-Moved r.key r.at r.id r.low r.taken r.path r.hop,
        ))
