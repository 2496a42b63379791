-- ===== src/Receive/Frame.antt =====
-- A packet as the list of its bytes, and the buffers that show it from some byte on.
use tao_p4code.Base.{
  ℕ, zero, suc, ◌+◌, ◌<◌, ◌≤◌, ◌≡◌, refl, ap, ◌∙◌, Option, none, some, List, [], ◌∷◌, arith,
  get_elem?, length,
}
use tao_p4code.World.{Env, ok}
use tao_p4code.Receive.{PmdLib}
use tao_p4code.Receive.Steps.{load8, load16, load32, adj_unchecked}

-- The byte at `k`, 0 behind the end; two bytes and four bytes in network order.
abbrev pub byte_or : Option ℕ → ℕ
byte_or none = 0
byte_or (some b) = b

abbrev pub byte_at : List ℕ → ℕ → ℕ
byte_at pkt k = byte_or (get_elem? pkt k)

abbrev pub IsBytes : List ℕ → Type 0
IsBytes pkt = (k : ℕ) → byte_at pkt k < 256

pub get_elem-lt : (pkt : List ℕ) (k : ℕ) → k < length pkt → get_elem? pkt k ≡ some (byte_at pkt k)
get_elem-lt [] k h = absurd (omega arith)
get_elem-lt (b ∷ pkt) zero h = refl
get_elem-lt (b ∷ pkt) (suc k) h = get_elem-lt pkt k (omega arith)

pub lt-get_elem :
    (pkt : List ℕ) (k b : ℕ) → get_elem? pkt k ≡ some b → (k < length pkt) × (byte_at pkt k ≡ b)
lt-get_elem [] k b h = absurd (cc)
lt-get_elem (x ∷ pkt) zero b h = (omega arith, ap byte_or h)
lt-get_elem (x ∷ pkt) (suc k) b h = let (low, at) = lt-get_elem pkt k b h in (omega arith, at)

module _ {env : Env} (lib : PmdLib env) (pkt : List ℕ) where
  -- The buffer shows the packet from the byte `off` on.
  pub record Window (m : lib.Mbuf) (off : ℕ) : Type 0 where
    pub size : off + lib.data_len m ≡ length pkt
    pub shows : (k i : ℕ) → i ≡ off + k → i < length pkt → lib.byte m k ≡ some (byte_at pkt i)

  pub received-Window :
      (m : lib.Mbuf)
      → length pkt ≤ lib.room m
      → Window (lib.set_len (lib.received m pkt) (length pkt)) 0
  received-Window m fits = record {
    size = omega (arith, lib.data_len-set_len (lib.received m pkt) (length pkt));
    shows = λ k i is low.
        let same : k ≡ i = omega (arith, is) in
        lib.byte-received m pkt (length pkt) k (byte_at pkt i) fits
          (ap (get_elem? pkt) same ∙ get_elem-lt pkt i low);
  }

  pub adj-Window :
      (m : lib.Mbuf) (off n to : ℕ)
      → Window m off
      → to ≡ off + n
      → to ≤ length pkt
      → (m' : lib.Mbuf) × (lib.adj m n ≡ some m') × Window m' to
  adj-Window m off n to win is_to h =
      let (m', is, size, shows) = lib.adj_some m n (omega (arith, win.size)) in
      (
        m',
        is,
        record {
          size = omega (arith, size, win.size);
          shows = λ k i at low. shows k ∙ win.shows (n + k) i (omega (arith, at)) low;
        },
      )

  -- Loads from the buffer, by the place `i` in the packet.
  pub load8-Window :
      (m : lib.Mbuf) (off k i : ℕ)
      → Window m off
      → i ≡ off + k
      → i < length pkt
      → load8 lib m k ≡ ok (byte_at pkt i)
  unfolding load8
  load8-Window m off k i win is low = rw (win.shows k i is low, load8) refl

  pub load16-Window :
      (m : lib.Mbuf) (off k i : ℕ)
      → Window m off
      → i ≡ off + k
      → i + 1 < length pkt
      → load16 lib m k ≡ ok (lib.host16 (byte_at pkt i) (byte_at pkt (i + 1)))
  unfolding load16
  load16-Window m off k i win is low =
      rw
        (
          load8-Window m off k i win is (omega (arith, low)),
          load8-Window m off (k + 1) (i + 1) win (omega (arith, is)) low,
          load16,
        )
        refl

  pub load32-Window :
      (m : lib.Mbuf) (off k i : ℕ)
      → Window m off
      → i ≡ off + k
      → i + 3 < length pkt
      → load32 lib m k
        ≡ ok (
            lib.host32
              (byte_at pkt i)
              (byte_at pkt (i + 1))
              (byte_at pkt (i + 2))
              (byte_at pkt (i + 3)))
  unfolding load32
  load32-Window m off k i win is low =
      rw
        (
          load8-Window m off k i win is (omega (arith, low)),
          load8-Window m off (k + 1) (i + 1) win (omega (arith, is)) (omega (arith, low)),
          load8-Window m off (k + 2) (i + 2) win (omega (arith, is)) (omega (arith, low)),
          load8-Window m off (k + 3) (i + 3) win (omega (arith, is)) low,
          load32,
        )
        refl

-- A call of `rte_pktmbuf_adj` that does not give NULL.
pub adj_done :
    {env : Env} (lib : PmdLib env) (m m' : lib.Mbuf) (n : ℕ)
    → lib.adj m n ≡ some m'
    → adj_unchecked lib m n ≡ m'
unfolding adj_unchecked
adj_done lib m m' n e = rw (e, adj_unchecked) refl
