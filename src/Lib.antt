-- ===== src/Lib.antt =====
-- The control agent of the switch, agent/*.c, as functions on an explicit state.
--
-- The agent keeps, in software, what a flow needs to cross the switch: the VRF of a tunnel, the
-- route of a destination in the VRF, the next hop of the route, and the neighbour of the next hop.
-- agent/entry_api.c looks these up one after the other, and each lookup sends the entry that it
-- found to the switch, or takes it out.
--
-- Files and code:
--   Types        structs and constants of agent/route.h, neigh.h, tunnel_map.h, ntb_dp.h
--   Errno        the error codes of agent/ntb_errno.h
--   World        the whole state: VRFs (agent/vrf.h), hash tables, allocated objects, the switch;
--                the monad in which code that follows pointers is written
--   Dpdk         the libraries: interfaces with laws for the hash table, the array of results, the
--                FIB and the driver; Dpdk/Owned has the lemmas on a table of allocated objects,
--                Dpdk/Walk what an iteration over a hash table is said to meet
--   Neigh        agent/neigh.c
--   Route/Nhop   next hops, agent/route.c from fib_nhop_equal to nhop_obj_delete
--   Route/Result, Route/Prefix, Route/Update, Route/Lookup
--                the rest of agent/route.c: results, RIB and FIB, insertion and deletion, lookup
--   Route/Rib    the routes as a whole: the invariant that ties RIB, results and next hops together
--                and the abstract map from prefixes to next hops, with its operations
--   Vrf          agent/vrf.c: Vrf/Table has the array of VRFs, Vrf/Remove the deletion of a VRF
--   Tunnel       agent/tunnel_map.c
--   EntryApi     agent/entry_api.c
--   Setup        the *_init functions of the tables, as ntb_dp_init of agent/pmd.c calls them
--   Pmd          agent/pmd.c: the contexts of the packet threads (record of agent/ntb_dp.h)
--   Netio        agent/netio.c: the filter on the socket, a program of classic BPF
--   Receive      agent/zdw_agent/pmd.c: the receive functions, from netio_rx to ip_forward, with the
--                lookups of agent/zdw_agent that they call; Receive/Decide is what they are to do
--   Main         agent/main.c: options, set-up of the switch, run
--   Base         numbers, arrays and names that the parts share
--   Demo, Tests  a concrete environment, and the results at concrete inputs
-- The modules below a part hold its proofs and are named for what they prove. A function of the
-- code has its name here, without a leading underscore; its branches and loops have names of their
-- own where it is long.
--
-- The model: a pointer to an allocated object is its address in a partial function, NULL is
-- `none`, and freeing an object takes it out. A read through NULL or through an address at which
-- nothing lives, and an access beyond an array, is the outcome `fault`. A pointer to a VRF is its
-- index. Tables shared by all VRFs stand once in the state. Unsigned counters wrap at 2 ^ 32.
-- Assertions of the code do nothing, as in a build without RTE_ENABLE_ASSERT. Log output is left out.
-- Some assertions contradict runs that are modelled: ntb_tunnel_map_vrf_lookup asserts that its
-- request to the switch is refused (agent/tunnel_map.c, lines 239 and 243), and the callers of
-- rt_prefix_obj_delete that rte_hash_del_key gives the position 0 (agent/route.c, lines 723 and 788).
-- A pointer that is never set faults where it is followed (`ethhdr` of shc_swTohw_rule). The function
-- _shc_hal_neigh_entry_del of agent/neigh.c lacks the declaration of `ret`; it is read as if it stood
-- there.
--
-- The libraries (hash tables, rte_fib, rte_fbarray, the allocator, byte order, the driver) are
-- fields of `Env` with their documented laws: a key that was added is found, other keys keep their
-- value, an address that is allocated was not in use. Nothing says that they succeed;
-- the results that need it ask for it, those on the set-up with what the libraries make in `Setup`.
-- That an iteration passes every entry, while the entry just passed is deleted, is the law `Walks`,
-- which the results on the deletion of a VRF and of its routes take as a hypothesis.
--
-- Loops run over the array of VRFs or over a list. Only ntb_route_cleanup has fuel: one more than
-- the entries of the hash table, whose positions the iteration walks upwards.
--
-- The set-up faults where a table cannot be made, which an assertion of the code forbids.
--
-- The receive path stands as in agent/zdw_agent, whose files fit together: agent/pmd.c calls
-- ntb_route_lookup with a number of arguments that agent/route.c does not define. Its lookups read
-- the tables and send nothing to the switch. The packet buffers of DPDK are an interface, PmdLib:
-- a byte beyond a buffer and a NULL that is followed are faults. A function of the agent that no
-- file defines, neigh_probe_xmit, is a record of its calls. The pointer to the counters may be NULL,
-- as it always is in the code: its one assignment is commented out.
-- The meaning of the instructions of BPF is the documented one. getopt_long, the driver and the
-- system answer main as its arguments say.
--
-- Not modelled: the start of EAL, of the memory pool and of the events in agent/pmd.c and
-- agent/netio.c, which are calls of libraries; the C++ parts of the repository, the P4 programs,
-- tests, and the older copies agent/agent-bak and, but for the receive path, agent/zdw_agent.
pub mod Base
pub mod Errno
pub mod Dpdk
pub mod Types
pub mod World
pub mod Neigh
pub mod Route
pub mod Vrf
pub mod Tunnel
pub mod EntryApi
pub mod Demo
pub mod Tests
pub mod Setup
pub mod Pmd
pub mod Netio
pub mod Receive
pub mod Main
