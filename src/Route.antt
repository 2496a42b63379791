-- ===== src/Route.antt =====
-- agent/route.c: the routes of the VRFs. A prefix leads through the RIB to a result (`fib_res`) with
-- the next hops of the route; next hops are shared between routes and count their uses.
pub mod Nhop
pub mod Result
pub mod Prefix
pub mod Update
pub mod Lookup
pub mod Rib
