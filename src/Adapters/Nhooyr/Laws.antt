-- ===== src/Adapters/Nhooyr/Laws.antt =====
-- What the methods of wscengine/wsadapters/nhooyr/nhooyr_websocket_connection_adapter.go keep of their
-- interface.
use gowsclient.Base.{
  ℕ, ◌≡◌, ◌⊎◌, inl, inr, Bool, true, false, Option-cases, none, List, String, arith,
}
use gowsclient.Errors.{Error, is_nil, as_close_error}
use gowsclient.Adapters.Constants.{StatusCode, MessageType}
use gowsclient.Adapters.Interface.{ConnectionAdapter, PingEnv, is_close_error}
use gowsclient.Adapters.Nhooyr.{
  Library, NhooyrWorld, is_set, dial, close, close_conn, ping, read, read_conn, write,
}

module _ (lib : Library) where
  abbrev pub connected : NhooyrWorld lib → Bool
  connected w = is_set w.conn

  pub dial_again :
      (ctx : Error) (url : Library.Url lib) (w : NhooyrWorld lib)
      → connected w ≡ true
      → (is_nil (dial lib ctx url w).2 ≡ false) × (connected (dial lib ctx url w).0 ≡ true)
  unfolding dial
  dial_again ctx url w h = ground arith

  pub dial_opens :
      (ctx : Error) (url : Library.Url lib) (w : NhooyrWorld lib)
      → connected (dial lib ctx url w).0 ≡ true
      → connected w ≡ false
      → is_nil (dial lib ctx url w).2 ≡ true
  unfolding dial
  dial_opens ctx url w h k = ground arith

  pub dial_succeeds :
      (ctx : Error) (url : Library.Url lib) (w : NhooyrWorld lib)
      → is_nil (dial lib ctx url w).2 ≡ true
      → connected (dial lib ctx url w).0 ≡ true
  unfolding dial
  dial_succeeds ctx url w h = ground arith

  pub close_drops :
      (code : StatusCode) (reason : String) (w : NhooyrWorld lib)
      → connected (close lib code reason w).0 ≡ false
  unfolding close close_conn
  close_drops code reason w = ground arith

  pub close_again :
      (code : StatusCode) (reason : String) (w : NhooyrWorld lib)
      → connected w ≡ false
      → is_nil (close lib code reason w).1 ≡ false
  unfolding close close_conn
  close_again code reason w h = ground arith

  pub write_keeps :
      (ctx : Error) (ty : MessageType) (msg : List ℕ) (w : NhooyrWorld lib)
      → connected (write lib ctx ty msg w).0 ≡ connected w
  unfolding write
  write_keeps ctx ty msg w = ground arith

  pub ping_keeps :
      (env : PingEnv) (w : NhooyrWorld lib) → connected (ping lib env.ctx w).0 ≡ connected w
  unfolding ping
  ping_keeps env w = ground arith

  pub ping_closed :
      (env : PingEnv) (w : NhooyrWorld lib)
      → connected w ≡ false
      → is_nil (ping lib env.ctx w).1 ≡ false
  unfolding ping
  ping_closed env w h = ground arith

  pub ping_expired :
      (env : PingEnv) (w : NhooyrWorld lib)
      → is_nil env.ctx ≡ false
      → (ping lib env.ctx w).1 ≡ env.ctx
  unfolding ping
  ping_expired env w h = ground arith

  read_conn-cases :
      (ctx : Error) (c : Library.Conn lib) (w : NhooyrWorld lib)
      → (is_close_error (read_conn lib ctx c w).1.err ≡ true)
          × ((read_conn lib ctx c w).0.conn ≡ none)
        ⊎ (is_close_error (read_conn lib ctx c w).1.err ≡ false)
          × ((read_conn lib ctx c w).0.conn ≡ w.conn)
  unfolding read_conn as_close_error
  read_conn-cases ctx c w = ground (arith, Library.read_foreign lib ctx c w.net)

  pub read_keeps :
      (ctx : Error) (w : NhooyrWorld lib)
      → is_close_error (read lib ctx w).1.err ≡ false
      → connected (read lib ctx w).0 ≡ connected w
  unfolding read
  read_keeps ctx w h = elim (Option-cases w.conn) [
    | inl e ↦ ground arith
    | inr (c, e) ↦ ground (arith, read_conn-cases ctx c w)
  ]

  pub read_drops :
      (ctx : Error) (w : NhooyrWorld lib)
      → is_close_error ctx ≡ false
      → is_close_error (read lib ctx w).1.err ≡ true
      → connected (read lib ctx w).0 ≡ false
  unfolding read as_close_error
  read_drops ctx w plain h = elim (Option-cases w.conn) [
    | inl e ↦ ground arith
    | inr (c, e) ↦ ground (arith, read_conn-cases ctx c w)
  ]

  -- The nhooyr adapter meets the interface.
  abbrev pub nhooyr_adapter :
      ConnectionAdapter (NhooyrWorld lib) (Library.Url lib) (Library.Response lib)
  nhooyr_adapter = record {
    dial = dial lib;
    close = close lib;
    ping = λ env w. ping lib env.ctx w;
    read = read lib;
    write = write lib;
    connected = connected;
    dial_again = dial_again;
    dial_opens = dial_opens;
    dial_succeeds = dial_succeeds;
    close_drops = close_drops;
    close_again = close_again;
    ping_keeps = ping_keeps;
    ping_closed = ping_closed;
    ping_expired = ping_expired;
    read_keeps = read_keeps;
    read_drops = read_drops;
    write_keeps = write_keeps;
  }
