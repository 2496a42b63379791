-- ===== src/Dpdk/Walk.antt =====
-- What an iteration over a hash table meets, as rte_hash documents it: each entry has a position,
-- which stays while it is in the table, and the iteration goes through the positions upwards.
use tao_p4code.Base.{ℕ, suc, ◌≤◌, ◌<◌, ◌≡◌, none, some}
use tao_p4code.Dpdk.{Table}

pub record Walks {K V : Type 0} (t : Table K V) : Type 0 where
  pub slot : t.Tbl → K → ℕ
  pub apart :
      (tbl : t.Tbl) (j k : K) (u v : V)
      → t.lookup tbl j ≡ some u
      → t.lookup tbl k ≡ some v
      → slot tbl j ≡ slot tbl k
      → j ≡ k
  pub stays :
      (tbl : t.Tbl) (j k : K) (v : V)
      → t.lookup (t.del tbl j) k ≡ some v
      → slot (t.del tbl j) k ≡ slot tbl k
  pub at :
      (tbl : t.Tbl) (i next : ℕ) (k : K) (v : V)
      → t.iterate tbl i ≡ some (next, k, v)
      → next ≡ suc (slot tbl k)
  pub first :
      (tbl : t.Tbl) (i next : ℕ) (k j : K) (v u : V)
      → t.iterate tbl i ≡ some (next, k, v)
      → t.lookup tbl j ≡ some u
      → i ≤ slot tbl j
      → slot tbl k ≤ slot tbl j
  pub last :
      (tbl : t.Tbl) (i : ℕ) (k : K) (v : V)
      → t.iterate tbl i ≡ none
      → t.lookup tbl k ≡ some v
      → slot tbl k < i
