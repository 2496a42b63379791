-- ===== src/Receive/Decide/Refine.antt =====
-- agent/zdw_agent/pmd.c: netio_rx against the decision on a packet.
use tao_p4code.Types.{FibRes, FibNhop}
use tao_p4code.World.{Env, World, Run, ok, fault}

abbrev res_value : {env : Env} → Run (FibRes × World env) → Run FibRes
res_value r = elim r [ fault ↦ fault | ok (a, u) ↦ ok a ]

abbrev nhop_value : {env : Env} → Run (FibNhop × World env) → Run FibNhop
nhop_value r = elim r [ fault ↦ fault | ok (a, u) ↦ ok a ]
