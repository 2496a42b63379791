-- ===== src/Receive/Parse/Truncated.antt =====
-- Packets that the filter of agent/netio.c keeps and that are too short for netio_rx.

use tao_p4code.World.{World}
