-- ===== src/Demo/Mbufs.antt =====
-- A concrete packet buffer: a list of bytes, of which a number counts as the packet.
use tao_p4code.Base.{
  ℕ, zero, suc, ◌+◌, ◌-◌, ◌*◌, ◌<◌, ◌≤◌, ◌≡◌, ◌↔◌, refl, Option, none, some, List, [], ◌∷◌, ◌++◌,
  arith, leb, if◌then◌else◌, get_elem?, replicate,
}
use tao_p4code.Demo.{demo_env}
use tao_p4code.Receive.{PmdLib}

pub record ListBuf : Type 0 where
  pub content : List ℕ
  pub size : ℕ

abbrev pub skip : ℕ → List ℕ → List ℕ
skip zero l = l
skip (suc n) [] = []
skip (suc n) (b ∷ l) = skip n l

get_elem-skip : (n : ℕ) (l : List ℕ) (k : ℕ) → get_elem? (skip n l) k ≡ get_elem? l (n + k)
get_elem-skip zero l k = let e : 0 + k ≡ k = omega arith in rw e refl
get_elem-skip (suc n) [] k = refl
get_elem-skip (suc n) (b ∷ l) k =
    let e : suc n + k ≡ suc (n + k) = omega arith in rw e (get_elem-skip n l k)

abbrev pub buf_adj : ListBuf → ℕ → Option ListBuf
buf_adj m n =
    if leb n m.size then some (record { content = skip n m.content; size = m.size - n }) else none

abbrev pub buf_prepend : ListBuf → ℕ → Option ListBuf
buf_prepend m n = some (record { content = replicate n 0 ++ m.content; size = m.size + n })

pub buf_adj-some :
    (m : ListBuf) (n : ℕ)
    → n ≤ m.size
    → (m' : ListBuf) × (buf_adj m n ≡ some m')
      × (n + m'.size ≡ m.size)
      × ((k : ℕ) → get_elem? m'.content k ≡ get_elem? m.content (n + k))
buf_adj-some m n h = (
  record { content = skip n m.content; size = m.size - n },
  ground arith,
  omega (arith, h),
  get_elem-skip n m.content,
)

pub buf_adj-none : (m : ListBuf) (n : ℕ) → m.size < n → buf_adj m n ≡ none
buf_adj-none m n h = ground arith

pub same_iff : (a b n : ℕ) → (a * 256 + b ≡ n) ↔ (a * 256 + b ≡ n)
same_iff a b n = (λ e. e, λ e. e)

abbrev pub list_bufs : PmdLib demo_env
list_bufs = record {
  Mbuf = ListBuf;
  byte = λ m k. get_elem? m.content k;
  data_len = λ m. m.size;
  room = λ m. 2048;
  rss = λ m. 0;
  received = λ m bytes. record m { content = bytes };
  set_len = λ m n. record m { size = n };
  adj = buf_adj;
  prepend = buf_prepend;
  host16 = λ a b. a * 256 + b;
  host32 = λ a b c d. ((a * 256 + b) * 256 + c) * 256 + d;
  be_to_cpu_16 = λ a. a;
  cpu_to_be_32 = λ a. a;
  byte-received = λ m bytes n k b fits e. e;
  data_len-set_len = λ m n. refl;
  adj_some = buf_adj-some;
  adj_none = buf_adj-none;
  prepend-adj =
      λ m m' n k e h. (record { content = replicate k 0 ++ m'.content; size = m'.size + k }, refl);
  host16-cpu_to_be = λ a b n ha hb hn. same_iff a b n;
  be_to_cpu-host16 = λ a b ha hb. refl;
  be_to_cpu-host32 = λ a b c d ha hb hc hd. refl;
}
