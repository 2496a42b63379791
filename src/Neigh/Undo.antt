-- ===== src/Neigh/Undo.antt =====
-- agent/neigh.c: ntb_neigh_del after ntb_neigh_add of the same gateway.
use tao_p4code.Base.{
  ℕ, ℤ, pos, ◌≡◌, ◌≢◌, ◌⊎◌, refl, sym, ap, ◌∙◌, subst, inl, inr, Option, none, some, arith, true,
  Bool-cases, Option-cases, is_neg, leb, inc32, dec32, update, update_self,
}
use native.Mathlib.Decide.{ℕ_discrete}
use tao_p4code.Types.{NeighKey, NeighEntry}
use tao_p4code.Dpdk.Owned.{update_ne}
use tao_p4code.World.{Env, World, ok, set_dp, Returns}
use tao_p4code.Neigh.{
  ntb_neigh_add, ntb_neigh_del, neigh_new, neigh_finish, neigh_drop, neigh_key, fresh_neigh_entry,
}
use tao_p4code.Neigh.Safety.{IsSound, HasRoom, NeighKey-discrete}

module _ {env : Env} where
  -- The same keys lead to the same entries.
  pub record SameNeighs (w u : World env) : Type 0 where
    pub keys : (k : NeighKey) → env.neigh.lookup u.neigh_tbl k ≡ env.neigh.lookup w.neigh_tbl k
    pub entries : (q : ℕ) → u.neighs q ≡ w.neighs q

  SameNeighs-refl : (w : World env) → SameNeighs w w
  SameNeighs-refl w = record { keys = λ k. refl; entries = λ q. refl }

  -- A key that was added, with an object at a fresh address, is taken out.
  forgotten :
      (w u : World env) (key : NeighKey) (p : ℕ) (tbl : env.neigh.Tbl)
      (heap : ℕ → Option NeighEntry)
      → env.neigh.lookup w.neigh_tbl key ≡ none
      → w.neighs p ≡ none
      → env.neigh.add w.neigh_tbl key p ≡ some tbl
      → ((q : ℕ) → q ≢ p → heap q ≡ w.neighs q)
      → u.neigh_tbl ≡ env.neigh.del tbl key
      → u.neighs ≡ update heap p none
      → SameNeighs w u
  forgotten w u key p tbl heap e fresh added same is at = record {
    keys = λ k. ap (λ t. env.neigh.lookup t k) is ∙ elim (NeighKey-discrete k key) [
      | yes h ↦
          ap (env.neigh.lookup (env.neigh.del tbl key)) h
          ∙ env.neigh.lookup-del_self tbl key
          ∙ sym (ap (env.neigh.lookup w.neigh_tbl) h ∙ e)
      | no ne ↦
          env.neigh.lookup-del_ne tbl key k ne
          ∙ env.neigh.lookup-add_ne w.neigh_tbl tbl key k p added ne
    ];
    entries = λ q. ap (λ f. f q) at ∙ elim (ℕ_discrete q p) [
      | yes h ↦ ap (update heap p none) h ∙ update_self heap p none ∙ sym (ap w.neighs h ∙ fresh)
      | no ne ↦ update_ne heap p q none ne ∙ same q ne
    ];
  }

  del_last :
      (u : World env) (v gw p : ℕ) (n : NeighEntry)
      → env.neigh.lookup u.neigh_tbl (neigh_key u v gw) ≡ some p
      → u.neighs p ≡ some n
      → n.refcnt ≡ 1
      → ntb_neigh_del u v gw ≡ ok (pos 0, neigh_drop u v (neigh_key u v gw) p)
  unfolding ntb_neigh_del
  del_last u v gw p n at live one = rw (at, live, ntb_neigh_del) (rw one refl)

  del_use :
      (u : World env) (v gw p : ℕ) (n : NeighEntry)
      → env.neigh.lookup u.neigh_tbl (neigh_key u v gw) ≡ some p
      → u.neighs p ≡ some n
      → leb 1 (dec32 n.refcnt) ≡ true
      → ntb_neigh_del u v gw
        ≡ ok (
          pos 0,
          record u { neighs = update u.neighs p (some (record n { refcnt = dec32 n.refcnt })) },
        )
  unfolding ntb_neigh_del
  del_use u v gw p n at live more = rw (at, live, more, ntb_neigh_del) refl

  -- The state after a new entry was added.
  abbrev entered : World env → ℕ → ℕ → env.neigh.Tbl → ℕ → env.hal.Hw → World env
  entered w v p tbl oid hw =
      record (set_dp w v (record ((w.vrfs v).dp) { neigh_cnt = inc32 (w.vrfs v).dp.neigh_cnt })) {
        hw = hw;
        neigh_tbl = tbl;
        neighs =
            update (update w.neighs p (some fresh_neigh_entry)) p
              (some (record fresh_neigh_entry { neigh_oid = oid }));
        neigh_count = inc32 w.neigh_count;
      }

  entered-Undone :
      (w : World env) (v gw p : ℕ) (tbl : env.neigh.Tbl) (oid : ℕ) (hw : env.hal.Hw)
      → env.neigh.lookup w.neigh_tbl (neigh_key w v gw) ≡ none
      → w.neighs p ≡ none
      → env.neigh.add w.neigh_tbl (neigh_key w v gw) p ≡ some tbl
      → Returns
          (λ ret x. (ret ≡ pos 0) × SameNeighs w x)
          (ntb_neigh_del (entered w v p tbl oid hw) v gw)
  unfolding neigh_drop
  entered-Undone w v gw p tbl oid hw e fresh added =
      let key = neigh_key w v gw in
      let u = entered w v p tbl oid hw in
      let same : neigh_key u v gw ≡ key =
        ap (λ x. record { vrfid = x.dp.vrf_id; nexthop = gw }) (update_self w.vrfs v _) in
      subst (Returns (λ ret x. (ret ≡ pos 0) × SameNeighs w x))
        (sym (
          del_last u v gw p (record fresh_neigh_entry { neigh_oid = oid })
            (ap (env.neigh.lookup tbl) same ∙ env.neigh.lookup-add_self w.neigh_tbl tbl key p added)
            (update_self (update w.neighs p (some fresh_neigh_entry)) p _) refl))
        (
          refl,
          forgotten w (neigh_drop u v (neigh_key u v gw) p) key p tbl u.neighs e fresh added
              (λ q ne. update_ne (update w.neighs p _) p q _ ne ∙ update_ne w.neighs p q _ ne)
              (ap (env.neigh.del tbl) same) refl,
        )

  -- Adding what the table does not have, with what a deletion makes of it.
  Undone : World env → ℕ → ℕ → ℤ × Option ℕ → World env → Type 0
  Undone w v gw r u =
      ((is_neg r.0 ≡ true) × SameNeighs w u)
      ⊎ ((r.0 ≡ pos 0) × Returns (λ ret x. (ret ≡ pos 0) × SameNeighs w x) (ntb_neigh_del u v gw))

  finish-Undone :
      (w : World env) (v gw p : ℕ) (tbl : env.neigh.Tbl)
      → env.neigh.lookup w.neigh_tbl (neigh_key w v gw) ≡ none
      → w.neighs p ≡ none
      → env.neigh.add w.neigh_tbl (neigh_key w v gw) p ≡ some tbl
      → let x : World env = record w {
        neigh_tbl = tbl;
        neighs = update w.neighs p (some fresh_neigh_entry);
      } in
        let done = neigh_finish x v (neigh_key w v gw) p in Undone w v gw done.0 done.1
  unfolding neigh_finish neigh_drop Undone
  finish-Undone w v gw p tbl e fresh added =
      let key = neigh_key w v gw in
      let heap : ℕ → Option NeighEntry = update w.neighs p (some fresh_neigh_entry) in
      elim (Bool-cases (is_neg (env.hal.neigh_alloc_oid w.hw).0)) [
        | inl neg ↦
            rw (neg, neigh_finish)
              (inl (
                neg,
                forgotten w _ key p tbl heap e fresh added (λ q ne. update_ne w.neighs p q _ ne)
                    refl refl,
              ))
        | inr got ↦
            rw (got, neigh_finish)
              (inr (
                refl,
                entered-Undone w v gw p tbl (env.hal.neigh_alloc_oid w.hw).1
                    (env.hal.neigh_alloc_oid w.hw).2 e fresh added,
              ))
      ]

  new-Undone :
      (w : World env) (v gw : ℕ)
      → env.neigh.lookup w.neigh_tbl (neigh_key w v gw) ≡ none
      → let done = neigh_new w v (neigh_key w v gw) in Undone w v gw done.0 done.1
  unfolding neigh_new Undone
  new-Undone w v gw e = elim (Option-cases (env.zmalloc w.neighs)) [
    | inl z ↦ rw (z, neigh_new) (inl (refl, SameNeighs-refl w))
    | inr (p, z) ↦ elim (Option-cases (env.neigh.add w.neigh_tbl (neigh_key w v gw) p)) [
      | inl f ↦ rw (z, f, neigh_new) (inl (refl, SameNeighs-refl w))
      | inr (tbl, f) ↦
          rw (z, f, neigh_new) (finish-Undone w v gw p tbl e (env.zmalloc_fresh w.neighs p z) f)
    ]
  ]

  -- In a sound state, where the counter of the entry of the gateway, if there is one, is not at
  -- its largest value, ntb_neigh_add returns. If its status is negative, the table of neighbours
  -- leads from every key to the same address as before and every address holds the same entry.
  -- If its status is 0, ntb_neigh_del of the same gateway then returns 0, and after it the table
  -- and the entries are the same as before ntb_neigh_add.
  pub ntb_neigh_del-add :
      (w : World env) (v gw : ℕ)
      → IsSound w
      → HasRoom w (neigh_key w v gw)
      → Returns
          (λ r u.
            ((is_neg r.0 ≡ true) × SameNeighs w u)
            ⊎ ((r.0 ≡ pos 0)
                × Returns (λ ret x. (ret ≡ pos 0) × SameNeighs w x) (ntb_neigh_del u v gw)))
          (ntb_neigh_add w v gw)
  unfolding ntb_neigh_add Undone
  ntb_neigh_del-add w v gw s room =
      let key = neigh_key w v gw in
      elim (Option-cases (env.neigh.lookup w.neigh_tbl key)) [
        | inl e ↦ rw (e, ntb_neigh_add) (new-Undone w v gw e)
        | inr (p, e) ↦
            let (n, live, used) = s.live key p e in
            let undo : dec32 (inc32 n.refcnt) ≡ n.refcnt = omega (arith, used, room p n e live) in
            let u : World env = record w {
              neighs = update w.neighs p (some (record n { refcnt = inc32 n.refcnt }));
            } in
            rw (e, live, ntb_neigh_add)
              (inr (
                refl,
                subst (Returns (λ ret x. (ret ≡ pos 0) × SameNeighs w x))
                    (sym (
                      del_use u v gw p (record n { refcnt = inc32 n.refcnt }) e
                        (update_self w.neighs p _) (rw undo (ground (arith, used)))))
                    (refl, record { keys = λ k. refl; entries = entries p n live undo }),
              ))
      ]
    where
      entries :
          (p : ℕ) (n : NeighEntry)
          → w.neighs p ≡ some n
          → dec32 (inc32 n.refcnt) ≡ n.refcnt
          → (q : ℕ)
          → update
              (update w.neighs p (some (record n { refcnt = inc32 n.refcnt })))
              p
              (some (record n { refcnt = dec32 (inc32 n.refcnt) }))
              q
            ≡ w.neighs q
      entries p n live undo q = elim (ℕ_discrete q p) [
        | yes h ↦
            ap (update (update w.neighs p _) p _) h
            ∙ update_self (update w.neighs p _) p _
            ∙ ap (λ m. some (record n { refcnt = m })) undo
            ∙ sym (ap w.neighs h ∙ live)
        | no ne ↦ update_ne (update w.neighs p _) p q _ ne ∙ update_ne w.neighs p q _ ne
      ]
