-- ===== src/Examples/Adapters.antt =====
-- The two adapters over a small network: calls are counted, a connection is a number, and a read
-- from connection 2 fails.
use gowsclient.Base.{
  map, ℕ, suc, pos, String, ◌≡◌, ◌==◌, refl, true, false, none, some, List, [], ◌∷◌, if◌then◌else◌,
  arith,
}
use gowsclient.Errors.{errorf, nil, foreign, as_close_error}
use gowsclient.Tracing.{Status}
use gowsclient.Tracing.Summary.{summary}
use gowsclient.Adapters.Constants.{going_away, text}
use gowsclient.Adapters.Interface.{is_close_error, ReadResult}
use gowsclient.Adapters.Client.{Op, dials, closes, reads, writes, run}
use gowsclient.Adapters.Gorilla.Adapter
use gowsclient.Adapters.Gorilla.Laws
use gowsclient.Adapters.Gorilla.Races
use gowsclient.Adapters.Gorilla.Ping
use gowsclient.Adapters.Nhooyr
use gowsclient.Adapters.Nhooyr.Conversions.{rfc_constants, IsRfc, from_to_nhooyr}
use gowsclient.Adapters.Nhooyr.Laws.{nhooyr_adapter}
use gowsclient.Adapters.Traced.{traced_adapter, entries, traced_run}

abbrev pub read_from : ℕ → ReadResult
read_from c = record { msg_type = text; msg = c ∷ []; err = if c == 2 then foreign 1006 else nil }

pub read_from_foreign : (c : ℕ) → as_close_error (ReadResult.err (read_from c)) ≡ none
unfolding as_close_error
read_from_foreign c = ground arith

abbrev pub nhooyr : Nhooyr.Library
nhooyr = record {
  Net = ℕ;
  Conn = ℕ;
  Options = Unit;
  Url = String;
  Response = Unit;
  constants = rfc_constants;
  dial = λ ctx url opts n. (suc n, none, n, nil);
  close = λ c code reason n. (suc n, nil);
  ping = λ ctx c n. (suc n, nil);
  read = λ ctx c n. (suc n, read_from c);
  write = λ ctx c ty msg n. (suc n, nil);
  close_status = λ e. pos 1001;
  is_eof = λ e. false;
  wrote_close = λ e. false;
  error_text = λ e. "closed";
  read_foreign = λ ctx c n. read_from_foreign c;
}

abbrev pub gorilla : Adapter.Library
gorilla = record {
  Net = ℕ;
  Conn = ℕ;
  Dialer = Unit;
  Url = String;
  Header = Unit;
  Response = Unit;
  default_dialer = tt;
  dial_context = λ d url h n. (suc n, none, n, nil);
  write_close = λ c code reason n. (suc n, foreign 9);
  write_ping = λ c n. (suc n, nil);
  read_message = λ c n. (suc n, Adapter.pong_frame ∷ [], read_from c);
  write_message = λ c ty msg n. (suc n, nil);
  close_error_code = λ e. none;
  error_text = λ e. "closed";
  read_foreign = λ c n. read_from_foreign c;
}

-- Connection 2 is set.
abbrev pub nhooyr_world : Nhooyr.NhooyrWorld nhooyr
nhooyr_world = record { conn = some 2; opts = none; net = 5 }

abbrev gorilla_world : Adapter.GorillaWorld gorilla
gorilla_world = record {
  adapter = record { conn = some 2; dialer = tt; request_header = tt; ping_requests = 0 ∷ 1 ∷ [] };
  net = 5;
  active = 4 ∷ [];
  next_listener = 5;
  received = [];
}

abbrev session : List (Op String)
session =
    reads nil
    ∷ dials nil "wss://localhost"
    ∷ dials nil "wss://localhost"
    ∷ writes nil text (1 ∷ [])
    ∷ closes going_away "done"
    ∷ []

abbrev rfc_constants-IsRfc : IsRfc rfc_constants
rfc_constants-IsRfc = record {
  normal = refl;
  going = refl;
  protocol = refl;
  unsupported = refl;
  no_status = refl;
  abnormal = refl;
  invalid = refl;
  policy = refl;
  too_big = refl;
  mandatory = refl;
  internal = refl;
  tls = refl;
  text_type = refl;
  binary_type = refl;
}

from_to_nhooyr_example :
    Nhooyr.convert_from_nhooyr_status_codes rfc_constants
      (Nhooyr.convert_to_nhooyr_status_codes rfc_constants (pos 1009))
    ≡ pos 1009
from_to_nhooyr_example = from_to_nhooyr rfc_constants (pos 1009) rfc_constants-IsRfc

abbrev pub status_text : Status → String
status_text s = "status"

traced_run_example :
    ((run
        (traced_adapter status_text (λ url. url) (nhooyr_adapter nhooyr))
        session
        (nhooyr_world, [])).0
      ≡ run (nhooyr_adapter nhooyr) session nhooyr_world)
    × (map summary
          (run
            (traced_adapter status_text (λ url. url) (nhooyr_adapter nhooyr))
            session
            (nhooyr_world, [])).1
        ≡ entries (nhooyr_adapter nhooyr) session nhooyr_world [])
traced_run_example =
    traced_run status_text (λ url. url) (nhooyr_adapter nhooyr) session nhooyr_world []

ping-pong_handler_example :
    let (w', step) = Ping.ping gorilla nil nil false gorilla_world in
    let answered = Adapter.pong_handler (Ping.listen gorilla 5 w') in
    (step ≡ Ping.ping_waits 5)
    × (answered.received ≡ (5, nil) ∷ gorilla_world.received)
    × (answered.adapter.ping_requests ≡ [])
ping-pong_handler_example =
    Ping.ping-pong_handler gorilla 2 false gorilla_world refl (omega arith) refl (refl, (refl, tt))
      (omega arith, (omega arith, tt))

-- A network in which a read from connection 2 meets a close message.
abbrev closing : Adapter.Library
closing = record gorilla { close_error_code = λ e. some (pos 1000) }

abbrev closing_world : Adapter.GorillaWorld closing
closing_world = record {
  adapter = record { conn = some 2; dialer = tt; request_header = tt; ping_requests = [] };
  net = 5;
  active = [];
  next_listener = 5;
  received = [];
}

read_conn-drops_new_example :
    let w' = (Races.close_dial closing going_away "done" "wss://localhost" closing_world).0 in
    let (w'', r) = Adapter.read_conn closing 2 w' in
    (Laws.connected closing w' ≡ true)
    × (is_close_error r.err ≡ true)
    × (Laws.connected closing w'' ≡ false)
    × (Adapter.close closing going_away "again" w''
        ≡ (w'', errorf "close failed because no connection is already up"))
unfolding Adapter.dial Adapter.close
read_conn-drops_new_example =
    Races.read_conn-drops_new closing 2 going_away going_away "done" "again" (pos 1000)
      "wss://localhost" closing_world refl refl refl refl
