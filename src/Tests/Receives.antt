-- ===== src/Tests/Receives.antt =====
-- The results on the receive path at concrete inputs.

use tao_p4code.Base.{
  ℕ, ◌≡◌, ap, pos, Bool, true, false, Option, none, some, List, [], ◌∷◌, ◌++◌, ◌==◌, ltb, ◌&&◌,
  if◌then◌else◌, update,
}
use tao_p4code.Types.{zero_ntb_tunnel_info, zero_mac}
use tao_p4code.World.{World}
use tao_p4code.Demo.{demo_env, demo_dp, start, write_at_self}
use tao_p4code.Demo.Mbufs.{ListBuf, list_bufs}
use tao_p4code.Neigh.Safety.{NeighKey-discrete}
use tao_p4code.Tests.{gateway_key, some_mac}
use tao_p4code.Tests.Routes.{one_route, resolved, a_nhop}
use tao_p4code.Netio.{udp_filter}
use tao_p4code.Netio.Accept.{Verdict, udp_filter-Verdict}
use tao_p4code.Main.{Opt, sde_install_dir, p4_conf, bfshell, Answers, init_globals, main}
use tao_p4code.Main.Options.{main_outcome, parsed, first_exit, settings, main-parsed}
use tao_p4code.Receive.{Rx, KeyValue}
use tao_p4code.Receive.Decide.{send, by_neigh, entry_of, decide}

-- An IP header to the address 5 from the address 4, of the protocol UDP.
abbrev ip_header : List ℕ
ip_header = 0x45 ∷ 0 ∷ 0 ∷ 0 ∷ 0 ∷ 0 ∷ 0 ∷ 0 ∷ 64 ∷ 17 ∷ 0 ∷ 0 ∷ 0 ∷ 0 ∷ 0 ∷ 4 ∷ 0 ∷ 0 ∷ 0 ∷ 5 ∷ []

-- Behind it: UDP to the port 4789, VXLAN with the VNI 7, Ethernet and an IP header.
abbrev a_packet : List ℕ
a_packet =
    ip_header
    ++ (1 ∷ 2 ∷ 0x12 ∷ 0xb5 ∷ 0 ∷ 0 ∷ 0 ∷ 0 ∷ [])
    ++ (8 ∷ 0 ∷ 0 ∷ 0 ∷ 0 ∷ 0 ∷ 7 ∷ 0 ∷ [])
    ++ (1 ∷ 1 ∷ 1 ∷ 1 ∷ 1 ∷ 1 ∷ 2 ∷ 2 ∷ 2 ∷ 2 ∷ 2 ∷ 2 ∷ 8 ∷ 0 ∷ [])
    ++ ip_header

-- The same, cut off behind the ports.
abbrev cut_packet : List ℕ
cut_packet = ip_header ++ (1 ∷ 2 ∷ 0x12 ∷ 0xb5 ∷ [])

all_bytes : List ℕ → Bool
all_bytes [] = true
all_bytes (b ∷ l) = ltb b 256 && all_bytes l

-- Every tunnel leads to the first VRF, in use, in which the address 5 has a route.
abbrev ready_world : World demo_env
ready_world = record one_route {
  vrfs = λ v. record {
    name = [];
    valid = v == 0;
    dp = record (demo_dp v) { fib = λ p l. if p == 5 then some (pos 1) else none };
  };
  tunnel_tbl = λ k. some 1;
  tunnels = λ p. some (record zero_ntb_tunnel_info { vrf_id = 1 });
  neighs = update start.neighs 1 (some resolved);
}

abbrev no_info : KeyValue
no_info = record {
  vrf_id = pos 0;
  vni = 0;
  inner_src_ip = 0;
  inner_dst_ip = 0;
  next_hop = 0;
  vni_encp = 0;
  outer_src_mac = zero_mac;
  outer_dst_mac = zero_mac;
  outer_src_ip = 0;
  outer_dst_ip = 0;
  inner_src_mac = zero_mac;
  inner_dst_mac = zero_mac;
}

abbrev idle : Rx
idle = record {
  info = no_info;
  stats = none;
  probes = [];
  loopbreak = false;
  mbufs = 0;
  readers = 0;
}

abbrev empty_buf : ListBuf
empty_buf = record { content = []; size = 0 }

udp_filter-Verdict_example : Verdict a_packet (udp_filter a_packet)
udp_filter-Verdict_example = udp_filter-Verdict a_packet

a_packet-sent : decide list_bufs ready_world a_packet ≡ send some_mac a_nhop
unfolding decide
a_packet-sent =
    ap
      (λ (o : Option ℕ). by_neigh list_bufs ready_world 1 a_nhop (entry_of list_bufs ready_world o))
      (write_at_self NeighKey-discrete start.neigh_tbl gateway_key (some 1))

-- Two arguments for the directory, a file, the shell.
abbrev some_opts : List Opt
some_opts = sde_install_dir (1 ∷ []) ∷ p4_conf (2 ∷ []) ∷ bfshell ∷ sde_install_dir (3 ∷ []) ∷ []

abbrev all_well : Answers
all_well = record { euid = 0; lib_init = λ g. pos 0; pipe = pos 0; setaffinity = λ c. pos 0 }

main-parsed_example :
    main (λ arg. pos 0) all_well some_opts
    ≡ main_outcome all_well
        (parsed (first_exit some_opts) (settings (λ arg. pos 0) some_opts init_globals))
main-parsed_example = main-parsed (λ arg. pos 0) all_well some_opts
