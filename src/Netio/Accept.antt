-- ===== src/Netio/Accept.antt =====
-- agent/netio.c: the filter of the raw socket against a description of packets.
use Prim.Native.Nat.{bit_and}
use tao_p4code.Base.{
  ℕ, ◌+◌, ◌*◌, ◌%◌, ◌≡◌, ◌⊎◌, Bool, true, false, [], ◌∷◌, ap, ◌∙◌, refl, inl, inr, Option, none,
  some, List, arith, ◌==◌, if◌then◌else◌, get_elem?,
}
use tao_p4code.Base.Mask.{bit_and_thirteen}
use tao_p4code.Netio.{
  ipproto_udp, vxlan_port, accept_all, Insn, ret_k, jeq_k, jset_k, ldx_b_msh, ld_h_abs, ld_h_ind,
  load_then, insns, load_half, bpf_run, udp_filter,
}

-- A first fragment of a UDP datagram to the VXLAN port, by its bytes.
pub record IsVxlan (pkt : List ℕ) : Type 0 where
  pub frag : ℕ
  pub ihl : ℕ
  pub udp : get_elem? pkt 9 ≡ some ipproto_udp
  pub frag_at : load_half pkt 6 ≡ some frag
  pub first : frag % 8192 ≡ 0
  pub ihl_at : get_elem? pkt 0 ≡ some ihl
  pub port : load_half pkt (4 * (ihl % 16) + 2) ≡ some vxlan_port

-- A packet is kept whole and is one for the VXLAN port, or it is dropped and is none.
abbrev pub Verdict : List ℕ → ℕ → Type 0
Verdict pkt r = ((r ≡ accept_all) × IsVxlan pkt) ⊎ ((r ≡ 0) × (IsVxlan pkt → ⊥))

module _ (pkt : List ℕ) where
  abbrev from_port : List Insn
  from_port = jeq_k vxlan_port 0 1 ∷ ret_k accept_all ∷ ret_k 0 ∷ []

  abbrev from_ihl : List Insn
  from_ihl = ldx_b_msh 0 ∷ ld_h_ind 2 ∷ from_port

  abbrev from_frag : List Insn
  from_frag = jset_k 0x1fff 4 0 ∷ from_ihl

  abbrev from_proto : List Insn
  from_proto = jeq_k ipproto_udp 0 6 ∷ ld_h_abs 6 ∷ from_frag

  -- The stages of the program, from the last one on: what is known of the packet before each, and
  -- the outcome of its load or its test.
  port_test :
      (ihl frag v x : ℕ)
      → get_elem? pkt 9 ≡ some ipproto_udp
      → load_half pkt 6 ≡ some frag
      → frag % 8192 ≡ 0
      → get_elem? pkt 0 ≡ some ihl
      → load_half pkt (4 * (ihl % 16) + 2) ≡ some v
      → (b : Bool) → (v == vxlan_port) ≡ b
      → Verdict pkt (bpf_run pkt (if b then 0 else 1) (ret_k accept_all ∷ ret_k 0 ∷ []) v x)
  unfolding bpf_run
  port_test ihl frag v x udp frag_at first ihl_at port true e = inl (
    refl,
    record {
      frag = frag;
      ihl = ihl;
      udp = udp;
      frag_at = frag_at;
      first = first;
      ihl_at = ihl_at;
      port = ground arith;
    },
  )
  port_test ihl frag v x udp frag_at first ihl_at port false e =
      inr (refl, λ h. let same : h.ihl ≡ ihl = cc in let eq : v ≡ vxlan_port = cc in ground arith)

  port_load :
      (ihl frag a : ℕ)
      → get_elem? pkt 9 ≡ some ipproto_udp
      → load_half pkt 6 ≡ some frag
      → frag % 8192 ≡ 0
      → get_elem? pkt 0 ≡ some ihl
      → (o : Option ℕ) → load_half pkt (4 * (ihl % 16) + 2) ≡ o
      → Verdict pkt (load_then o λ v. bpf_run pkt 0 from_port v (4 * (ihl % 16)))
  unfolding bpf_run
  port_load ihl frag a udp frag_at first ihl_at none e =
      inr (refl, λ h. let same : h.ihl ≡ ihl = cc in cc)
  port_load ihl frag a udp frag_at first ihl_at (some v) e =
      port_test ihl frag v (4 * (ihl % 16)) udp frag_at first ihl_at e (v == vxlan_port) refl

  ihl_load :
      (frag a : ℕ)
      → get_elem? pkt 9 ≡ some ipproto_udp
      → load_half pkt 6 ≡ some frag
      → frag % 8192 ≡ 0
      → (o : Option ℕ) → get_elem? pkt 0 ≡ o
      → Verdict pkt (load_then o λ v. bpf_run pkt 0 (ld_h_ind 2 ∷ from_port) a (4 * (v % 16)))
  unfolding bpf_run
  ihl_load frag a udp frag_at first none e = inr (refl, λ h. cc)
  ihl_load frag a udp frag_at first (some ihl) e =
      port_load ihl frag a udp frag_at first e (load_half pkt (4 * (ihl % 16) + 2)) refl

  frag_test :
      (frag x : ℕ)
      → get_elem? pkt 9 ≡ some ipproto_udp
      → load_half pkt 6 ≡ some frag
      → (b : Bool) → (bit_and frag 0x1fff == 0) ≡ b
      → Verdict pkt (bpf_run pkt (if b then 0 else 4) from_ihl frag x)
  unfolding bpf_run
  frag_test frag x udp frag_at true e =
      ihl_load frag frag udp frag_at (ground (arith, bit_and_thirteen frag)) (get_elem? pkt 0) refl
  frag_test frag x udp frag_at false e =
      inr
        (refl, λ h. let same : h.frag ≡ frag = cc in ground (arith, h.first, bit_and_thirteen frag))

  frag_load :
      get_elem? pkt 9 ≡ some ipproto_udp
      → (o : Option ℕ) → load_half pkt 6 ≡ o
      → Verdict pkt (load_then o λ v. bpf_run pkt 0 from_frag v 0)
  unfolding bpf_run
  frag_load udp none e = inr (refl, λ h. cc)
  frag_load udp (some frag) e = frag_test frag 0 udp e (bit_and frag 0x1fff == 0) refl

  proto_test :
      (proto : ℕ)
      → get_elem? pkt 9 ≡ some proto
      → (b : Bool) → (proto == ipproto_udp) ≡ b
      → Verdict pkt (bpf_run pkt (if b then 0 else 6) (ld_h_abs 6 ∷ from_frag) proto 0)
  unfolding bpf_run
  proto_test proto at true e = frag_load (at ∙ ap some (ground arith)) (load_half pkt 6) refl
  proto_test proto at false e = inr (refl, λ h. let same : proto ≡ ipproto_udp = cc in ground arith)

  proto_load :
      (o : Option ℕ)
      → get_elem? pkt 9 ≡ o
      → Verdict pkt (load_then o λ v. bpf_run pkt 0 from_proto v 0)
  unfolding bpf_run
  proto_load none e = inr (refl, λ h. cc)
  proto_load (some proto) e = proto_test proto e (proto == ipproto_udp) refl

-- The filter keeps a packet whole exactly when its protocol is UDP, its fragment offset is 0 and
-- the two bytes at the destination port, behind as many words as its header length says, are
-- there and are 4789; it drops every other packet, those too short to be read included.
pub udp_filter-Verdict : (pkt : List ℕ) → Verdict pkt (udp_filter pkt)
unfolding udp_filter insns bpf_run
udp_filter-Verdict pkt = proto_load pkt (get_elem? pkt 9) refl
