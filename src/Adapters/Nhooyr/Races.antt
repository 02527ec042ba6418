-- ===== src/Adapters/Nhooyr/Races.antt =====
-- A Read of wscengine/wsadapters/nhooyr/nhooyr_websocket_connection_adapter.go that waits on a
-- connection, with the mutex free, while other goroutines call methods of the adapter.
use gowsclient.Base.{◌≡◌, true, false, ◌||◌, arith}
use gowsclient.Errors.{Error, is_nil, as_close_error}
use gowsclient.Adapters.Interface.{is_close_error}
use gowsclient.Adapters.Nhooyr.{Library, NhooyrWorld, has_status, read_conn}
use gowsclient.Adapters.Nhooyr.Laws.{connected}

module _ (lib : Library) where
  -- When a Read ends because its connection was closed, the adapter has no connection any more,
  -- whichever one was set in the meantime, and its error is a WebsocketCloseError. A Read that ends
  -- with another error, or with a message, leaves the connection that is set.
  read_conn-connected :
      (ctx : Error) (old : Library.Conn lib) (w : NhooyrWorld lib)
      → let err = (Library.read lib ctx old w.net).1.err in
        let (w', r) = read_conn lib ctx old w in
        (is_nil err ≡ false
          → (has_status lib err || Library.is_eof lib err) ≡ true
          → (connected lib w' ≡ false) × (is_close_error r.err ≡ true))
        × (is_nil err ≡ true → w'.conn ≡ w.conn)
        × ((has_status lib err || Library.is_eof lib err) ≡ false → w'.conn ≡ w.conn)
  unfolding read_conn as_close_error
  read_conn-connected ctx old w =
      ((λ bad. λ ends. ground arith), (λ good. ground arith), λ other. ground arith)
