-- ===== src/Adapters/Gorilla/Races.antt =====
-- A Read of wscengine/wsadapters/gorilla/gorilla_websocket_connection_adapter.go that waits on a
-- connection while other goroutines call Close and Dial. Read takes the connection under the mutex
-- and leaves the mutex before it waits, so that what follows is read_conn with the connection of
-- then in the state of now.
use gowsclient.Base.{ℤ, ◌≡◌, true, false, String, Option, some, arith}
use gowsclient.Errors.{Error, nil, errorf, is_nil, as_close_error}
use gowsclient.Adapters.Constants.{StatusCode}
use gowsclient.Adapters.Interface.{is_close_error}
use gowsclient.Adapters.Gorilla.Adapter.{Library, GorillaWorld, dial, close, read_conn}
use gowsclient.Adapters.Gorilla.Laws.{connected}

module _ (lib : Library) where
  -- A Close, and the Dial of the next connection.
  abbrev pub close_dial :
      StatusCode
      → String
      → Library.Url lib
      → GorillaWorld lib
      → GorillaWorld lib × Option (Library.Response lib) × Error
  close_dial code reason url w = dial lib nil url (close lib code reason w).0

  -- A Read that waits on a connection while another goroutine closes it and dials the next: when
  -- the old connection then ends with a close error, Read drops the new one, which is open. The
  -- adapter has no connection any more, and a Close to follow does not reach the new one.
  pub read_conn-drops_new :
      (old : Library.Conn lib) (code code' : StatusCode) (reason reason' : String) (status : ℤ)
      (url : Library.Url lib) (w : GorillaWorld lib)
      → w.adapter.conn ≡ some old
      → is_nil (close_dial code reason url w).2 ≡ true
      → is_nil (Library.read_message lib old (close_dial code reason url w).0.net).2.err ≡ false
      → Library.close_error_code lib
          (Library.read_message lib old (close_dial code reason url w).0.net).2.err
        ≡ some status
      → let w' = (close_dial code reason url w).0 in
        let (w'', r) = read_conn lib old w' in
        (connected lib w' ≡ true)
        × (is_close_error r.err ≡ true)
        × (connected lib w'' ≡ false)
        × (close lib code' reason' w''
            ≡ (w'', errorf "close failed because no connection is already up"))
  unfolding dial close read_conn as_close_error
  read_conn-drops_new old code code' reason reason' status url w set opened bad ends = ground arith
