-- ===== src/Errno.antt =====
-- The error codes of agent/ntb_errno.h: the X-macro list `foreach_ntb_err_code` gives each name an
-- index, and its code is the negative of the index.
use tao_p4code.Base.{ℕ, ℤ, neg_of}

pub data NtbErr : Type 0 where
  ntb_comm_success ntb_comm_failure ntb_comm_nomem ntb_comm_noent ntb_comm_inval_param : NtbErr
  ntb_regist_report_channel_fail ntb_vrf_name_invalid ntb_vrf_noent ntb_vrf_exist : NtbErr
  ntb_vrf_inval_vrfid ntb_vrf_ip_type_not_supported ntb_tunnel_no_found ntb_tunnel_inused : NtbErr
  ntb_tunnel_map_nospace ntb_tunnel_bundle_nospace ntb_tunnel_bundle_exist : NtbErr
  ntb_tunnel_bundle_no_exist ntb_tunnel_clear_stat_err ntb_tunnel_get_stat_err : NtbErr
  ntb_eg_tunnel_map_nospace ntb_nd_proxy_nospace ntb_nd_proxy_noexist : NtbErr
  ntb_neigh_entry_no_found ntb_ipv4_prefixlen_out_range ntb_ipv4_routetype_no_same : NtbErr
  ntb_vxlan_vni_invalid ntb_vxlan_remoteip_noset ntb_vxlan_dscp_out_range : NtbErr
  ntb_tgre_vpcid_invalid ntb_route_nh_alloc_oid_fail ntb_route_type_conflict : NtbErr
  ntb_route_ecmp_out_range ntb_vrf_not_exist ntb_route_prefix_nospace : NtbErr
  ntb_route_prefix_per_vrf_nospace ntb_route_result_nospace ntb_route_nexthop_not_found : NtbErr
  ntb_route_nexthop_ecmp_nospace ntb_grpc_params_invalid ntb_route_prefix_not_found : NtbErr
  ntb_load_to_p4_fail ntb_tunnel_obj_exceed_spec ntb_vxlan_bd_obj_exceed_spec : NtbErr
  ntb_fib_host_obj_exceed_spec ntb_fib_lpm_obj_exceed_spec ntb_nhop_obj_exceed_spec : NtbErr
  ntb_egress_tunnel_obj_exceed_spec ntb_inner_neigh_obj_exceed_spec : NtbErr
  ntb_ecmp_obj_exceed_spec ntb_mroute_obj_exceed_spec ntb_ipv6_not_support : NtbErr
  ntb_hostif_no_space ntb_hostif_no_found ntb_hostif_ip_set_kernel_fail : NtbErr
  ntb_hostif_ip_unset_kernel_fail ntb_hostif_ip_already_set ntb_termvip_no_space : NtbErr
  ntb_forward_vip_already_set ntb_forward_vip_no_set ntb_lo_dev_no_set : NtbErr
  ntb_caputre_dev_already_set ntb_caputre_dev_not_supported ntb_cntl_ip_already_set : NtbErr
  ntb_online_already ntb_gresip_no_space ntb_kernel_interface_no_exist ntb_capture_success : NtbErr
  ntb_capture_inval_param ntb_capture_no_vrf ntb_capture_entry_exist : NtbErr
  ntb_capture_update_table_fail ntb_capture_set_packet_num_fail : NtbErr
  ntb_capture_start_tcpdump_fail ntb_capture_stop_tcpdump_fail ntb_capture_already_stop : NtbErr
  ntb_capture_no_found_in_acl ntb_capture_del_table_fail ntb_add_acl_entry_fail : NtbErr
  ntb_del_acl_entry_fail ntb_get_acl_statis_fail ntb_malloc_acl_fail ntb_errno_end : NtbErr

-- The enumerator `f##_idx`.
abbrev pub idx : NtbErr → ℕ
idx ntb_comm_success = 0
idx ntb_comm_failure = 1
idx ntb_comm_nomem = 2
idx ntb_comm_noent = 3
idx ntb_comm_inval_param = 4
idx ntb_regist_report_channel_fail = 5
idx ntb_vrf_name_invalid = 6
idx ntb_vrf_noent = 7
idx ntb_vrf_exist = 8
idx ntb_vrf_inval_vrfid = 9
idx ntb_vrf_ip_type_not_supported = 10
idx ntb_tunnel_no_found = 11
idx ntb_tunnel_inused = 12
idx ntb_tunnel_map_nospace = 13
idx ntb_tunnel_bundle_nospace = 14
idx ntb_tunnel_bundle_exist = 15
idx ntb_tunnel_bundle_no_exist = 16
idx ntb_tunnel_clear_stat_err = 17
idx ntb_tunnel_get_stat_err = 18
idx ntb_eg_tunnel_map_nospace = 19
idx ntb_nd_proxy_nospace = 20
idx ntb_nd_proxy_noexist = 21
idx ntb_neigh_entry_no_found = 22
idx ntb_ipv4_prefixlen_out_range = 23
idx ntb_ipv4_routetype_no_same = 24
idx ntb_vxlan_vni_invalid = 25
idx ntb_vxlan_remoteip_noset = 26
idx ntb_vxlan_dscp_out_range = 27
idx ntb_tgre_vpcid_invalid = 28
idx ntb_route_nh_alloc_oid_fail = 29
idx ntb_route_type_conflict = 30
idx ntb_route_ecmp_out_range = 31
idx ntb_vrf_not_exist = 32
idx ntb_route_prefix_nospace = 33
idx ntb_route_prefix_per_vrf_nospace = 34
idx ntb_route_result_nospace = 35
idx ntb_route_nexthop_not_found = 36
idx ntb_route_nexthop_ecmp_nospace = 37
idx ntb_grpc_params_invalid = 38
idx ntb_route_prefix_not_found = 39
idx ntb_load_to_p4_fail = 40
idx ntb_tunnel_obj_exceed_spec = 41
idx ntb_vxlan_bd_obj_exceed_spec = 42
idx ntb_fib_host_obj_exceed_spec = 43
idx ntb_fib_lpm_obj_exceed_spec = 44
idx ntb_nhop_obj_exceed_spec = 45
idx ntb_egress_tunnel_obj_exceed_spec = 46
idx ntb_inner_neigh_obj_exceed_spec = 47
idx ntb_ecmp_obj_exceed_spec = 48
idx ntb_mroute_obj_exceed_spec = 49
idx ntb_ipv6_not_support = 50
idx ntb_hostif_no_space = 51
idx ntb_hostif_no_found = 52
idx ntb_hostif_ip_set_kernel_fail = 53
idx ntb_hostif_ip_unset_kernel_fail = 54
idx ntb_hostif_ip_already_set = 55
idx ntb_termvip_no_space = 56
idx ntb_forward_vip_already_set = 57
idx ntb_forward_vip_no_set = 58
idx ntb_lo_dev_no_set = 59
idx ntb_caputre_dev_already_set = 60
idx ntb_caputre_dev_not_supported = 61
idx ntb_cntl_ip_already_set = 62
idx ntb_online_already = 63
idx ntb_gresip_no_space = 64
idx ntb_kernel_interface_no_exist = 65
idx ntb_capture_success = 66
idx ntb_capture_inval_param = 67
idx ntb_capture_no_vrf = 68
idx ntb_capture_entry_exist = 69
idx ntb_capture_update_table_fail = 70
idx ntb_capture_set_packet_num_fail = 71
idx ntb_capture_start_tcpdump_fail = 72
idx ntb_capture_stop_tcpdump_fail = 73
idx ntb_capture_already_stop = 74
idx ntb_capture_no_found_in_acl = 75
idx ntb_capture_del_table_fail = 76
idx ntb_add_acl_entry_fail = 77
idx ntb_del_acl_entry_fail = 78
idx ntb_get_acl_statis_fail = 79
idx ntb_malloc_acl_fail = 80
idx ntb_errno_end = 81

-- `ntb_err_code_t`.
abbrev pub ntb_err_code : NtbErr → ℤ
ntb_err_code e = neg_of (idx e)

-- The codes of <errno.h> that the agent returns.
abbrev pub enoent : ℤ
enoent = neg_of 2

abbrev pub enomem : ℤ
enomem = neg_of 12

abbrev pub efault : ℤ
efault = neg_of 14

abbrev pub enospc : ℤ
enospc = neg_of 28
