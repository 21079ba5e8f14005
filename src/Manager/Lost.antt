-- ===== src/Manager/Lost.antt =====
-- gateway/manager.go, Close after calls of Scale: what becomes of the groups that the manager has lost.
use sandwich_producer.ShardGroup.{ShardGroup}
use sandwich_producer.Manager.{Manager}
