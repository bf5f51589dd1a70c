-- ===== src/Server/Loader/Order.antt =====
-- `loader_main` of server/demotool.c keeps the order of events.
use demotool.Base.{◌≡◌, true, some}
use demotool.Protocol.{Header}
use demotool.Protocol.Flag
use demotool.Protocol.Err
use demotool.Server.Loader.{Call, Server}
use demotool.Server.Loader.Phases.{Phase, finished, allowed, phase}

module _ {W : Type 0} where
  -- The phases in which `plugin->done` may follow.
  abbrev IsClosed : Server W → Type 0
  IsClosed s = (p : Phase) × (phase s.trace ≡ some p) × (allowed p (Call.done true) ≡ some finished)
