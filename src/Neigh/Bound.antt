-- ===== src/Neigh/Bound.antt =====
-- agent/neigh.c: how large the counters of the neighbours become.
use native.Mathlib.Decide.{ℕ_discrete}
use mathlib.Core.Option.{some-injective}
use tao_p4code.Base.{
  ℕ, ◌+◌, ◌≤◌, ◌≡◌, sym, ◌∙◌, ap, Option, none, some, arith, inl, inr, Bool-cases, Option-cases,
  is_neg, leb, dec32, update, update_self,
}
use tao_p4code.Dpdk.Owned.{update_ne}
use tao_p4code.Types.{NeighKey, NeighEntry}
use tao_p4code.World.{Env, World, Returns, Returns-and}
use tao_p4code.Neigh.{ntb_neigh_add, ntb_neigh_del, neigh_key, neigh_new, neigh_finish}
use tao_p4code.Neigh.Safety.{IsSound, HasRoom, ntb_neigh_add-IsSound, ntb_neigh_del-IsSound}

abbrev pub AtMost : ℕ → (ℕ → Option NeighEntry) → Type 0
AtMost b heap = (p : ℕ) (n : NeighEntry) → heap p ≡ some n → n.refcnt ≤ b

pub AtMost-mono : (b c : ℕ) (heap : ℕ → Option NeighEntry) → b ≤ c → AtMost b heap → AtMost c heap
AtMost-mono b c heap le small p n e = omega (arith, le, small p n e)

AtMost-write :
    (b : ℕ) (heap : ℕ → Option NeighEntry) (p : ℕ) (n : NeighEntry)
    → n.refcnt ≤ b
    → AtMost b heap
    → AtMost b (update heap p (some n))
AtMost-write b heap p n le small q m e = elim (ℕ_discrete q p) [
  | yes eq ↦
      let same : n ≡ m =
        some-injective n m
          (sym (update_self heap p (some n)) ∙ ap (update heap p (some n)) (sym eq) ∙ e) in
      omega (arith, le, ap (λ x. x.refcnt) same)
  | no ne ↦ small q m (sym (update_ne heap p q (some n) ne) ∙ e)
]

AtMost-free :
    (b : ℕ) (heap : ℕ → Option NeighEntry) (p : ℕ) → AtMost b heap → AtMost b (update heap p none)
AtMost-free b heap p small q m e = elim (ℕ_discrete q p) [
  | yes eq ↦
      let gone : update heap p none q ≡ none =
        ap (update heap p none) eq ∙ update_self heap p none in
      cc
  | no ne ↦ small q m (sym (update_ne heap p q none ne) ∙ e)
]

module _ {env : Env} where
  -- The table of neighbours is sound, and no counter is larger than the bound.
  abbrev pub IsBounded : ℕ → World env → Type 0
  IsBounded b w = IsSound w × AtMost b w.neighs

  neigh_finish-AtMost :
      (b : ℕ) (w : World env) (v : ℕ) (key : NeighKey) (p : ℕ)
      → AtMost (b + 1) w.neighs
      → AtMost (b + 1) (neigh_finish w v key p).1.neighs
  unfolding neigh_finish
  neigh_finish-AtMost b w v key p small =
      elim (Bool-cases (is_neg (env.hal.neigh_alloc_oid w.hw).0)) [
        | inl e ↦ rw e (AtMost-free (b + 1) w.neighs p small)
        | inr e ↦ rw e (AtMost-write (b + 1) w.neighs p _ (omega arith) small)
      ]

  neigh_new-AtMost :
      (b : ℕ) (w : World env) (v : ℕ) (key : NeighKey)
      → AtMost b w.neighs
      → AtMost (b + 1) (neigh_new w v key).1.neighs
  unfolding neigh_new
  neigh_new-AtMost b w v key small = elim (Option-cases (env.zmalloc w.neighs)) [
    | inl e ↦ rw (e, neigh_new) (AtMost-mono b (b + 1) w.neighs (omega arith) small)
    | inr (p, e) ↦ elim (Option-cases (env.neigh.add w.neigh_tbl key p)) [
      | inl f ↦ rw (e, f, neigh_new) (AtMost-mono b (b + 1) w.neighs (omega arith) small)
      | inr (u, f) ↦
          rw (e, f, neigh_new)
            (neigh_finish-AtMost b _ v key p (
              AtMost-write (b + 1) w.neighs p _ (omega arith)
                (AtMost-mono b (b + 1) w.neighs (omega arith) small)))
    ]
  ]

  ntb_neigh_add-AtMost :
      (b : ℕ) (w : World env) (v gw : ℕ)
      → IsBounded b w
      → Returns (λ _ u. AtMost (b + 1) u.neighs) (ntb_neigh_add w v gw)
  unfolding ntb_neigh_add
  ntb_neigh_add-AtMost b w v gw (s, small) =
      elim (Option-cases (env.neigh.lookup w.neigh_tbl (neigh_key w v gw))) [
        | inl e ↦ rw (e, ntb_neigh_add) (neigh_new-AtMost b w v (neigh_key w v gw) small)
        | inr (p, e) ↦
            let (n, live, used) = s.live (neigh_key w v gw) p e in
            rw (e, live, ntb_neigh_add)
              (AtMost-write (b + 1) w.neighs p _ (ground (arith, small p n live))
                (AtMost-mono b (b + 1) w.neighs (omega arith) small))
      ]

  ntb_neigh_del-AtMost :
      (b : ℕ) (w : World env) (v gw : ℕ)
      → IsBounded b w
      → Returns (λ _ u. AtMost b u.neighs) (ntb_neigh_del w v gw)
  unfolding ntb_neigh_del
  ntb_neigh_del-AtMost b w v gw (s, small) =
      elim (Option-cases (env.neigh.lookup w.neigh_tbl (neigh_key w v gw))) [
        | inl e ↦ rw (e, ntb_neigh_del) small
        | inr (p, e) ↦
            let (n, live, used) = s.live (neigh_key w v gw) p e in
            rw (e, live, ntb_neigh_del)
              (elim (Bool-cases (leb 1 (dec32 n.refcnt))) [
                | inl more ↦ rw more (
                    AtMost-write b w.neighs p _ (ground (arith, small p n live, used.0, used.1))
                      small)
                | inr last ↦ rw last (AtMost-free b w.neighs p small)
              ])
      ]

  -- In a sound state in which no neighbour counter is above b and the counter of the entry is
  -- not at its largest value, ntb_neigh_add returns on every branch and leaves a sound state in
  -- which none is above b + 1.
  pub ntb_neigh_add-IsBounded :
      (b : ℕ) (w : World env) (v gw : ℕ)
      → IsBounded b w
      → HasRoom w (neigh_key w v gw)
      → Returns (λ _. IsBounded (b + 1)) (ntb_neigh_add w v gw)
  ntb_neigh_add-IsBounded b w v gw s room =
      Returns-and _ _ (ntb_neigh_add w v gw) (ntb_neigh_add-IsSound w v gw s.0 room)
        (ntb_neigh_add-AtMost b w v gw s)

  pub ntb_neigh_del-IsBounded :
      (b : ℕ) (w : World env) (v gw : ℕ)
      → IsBounded b w
      → Returns (λ _. IsBounded b) (ntb_neigh_del w v gw)
  ntb_neigh_del-IsBounded b w v gw s =
      Returns-and _ _ (ntb_neigh_del w v gw) (ntb_neigh_del-IsSound w v gw s.0)
        (ntb_neigh_del-AtMost b w v gw s)
