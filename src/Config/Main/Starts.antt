-- ===== src/Config/Main/Starts.antt =====
-- `main` comes to the start of its thread.
use osdpmaster.Timespec.{Timespec}
use osdpmaster.Protocol.{Protocol}
use osdpmaster.Bus.{Bus}
use osdpmaster.Config.Arguments.{Arguments}
