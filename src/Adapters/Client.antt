-- ===== src/Adapters/Client.antt =====
-- A user of an adapter of wscengine/wsadapters, such as the engine: a sequence of calls through the
-- interface.
use gowsclient.Base.{ℕ, String, List, [], ◌∷◌}
use gowsclient.Errors.{Error}
use gowsclient.Adapters.Constants.{StatusCode, MessageType}
use gowsclient.Adapters.Interface.{ConnectionAdapter, PingEnv}

-- A call of a method, with its context's error.
pub data Op (Url : Type 0) : Type 0 where
  dials : Error → Url → Op Url
  closes : StatusCode → String → Op Url
  pings : PingEnv → Op Url
  reads : Error → Op Url
  writes : Error → MessageType → List ℕ → Op Url

module _ {W Url Response : Type 0} (a : ConnectionAdapter W Url Response) where
  open a use {dial, close, ping, read, write, connected}

  unfoldable pub after : Op Url → W → W
  after (dials ctx url) w = (dial ctx url w).0
  after (closes code reason) w = (close code reason w).0
  after (pings env) w = (ping env w).0
  after (reads ctx) w = (read ctx w).0
  after (writes ctx ty msg) w = (write ctx ty msg w).0

  unfoldable pub run : List (Op Url) → W → W
  unfolding after
  run [] w = w
  run (op ∷ ops) w = run ops (after op w)
