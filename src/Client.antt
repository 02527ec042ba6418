-- ===== src/Client.antt =====
-- WebsocketClientInterface of wscengine/wsclient/websocket_client_interface.go: the six callbacks, as
-- functions of a state of the client, which holds what they do with the connection and the mutex
-- that they are handed too.
use gowsclient.Base.{ℕ, String, Bool, Option, List, [], ◌∷◌}
use gowsclient.Errors.{Error}
use gowsclient.Adapters.Constants.{StatusCode, MessageType}
pub mod Traced

pub record CloseMessageDetails : Type 0 where
  pub close_reason : StatusCode
  pub close_message : String

-- Which of the functions that it is handed a callback calls.
pub record Signals : Type 0 where
  pub restarts : Bool
  pub exits : Bool

-- A Boolean tells whether the exit function was called.
pub record WebsocketClient (C : Type 0) : Type 0 where
  pub on_open : (restarting : Bool) → C → C × Error × Bool
  pub on_message : (session : ℕ) → MessageType → List ℕ → C → C × Signals
  pub on_read_error : Error → C → C × Signals
  pub on_close : Option CloseMessageDetails → C → C × Option CloseMessageDetails
  pub on_close_error : Error → C → C
  pub on_restart_error : Error → (retry_count : ℕ) → C → C × Bool

-- A call of a callback, and what it answers.
pub data Callback : Type 0 where
  opens : (restarting : Bool) → Callback
  messages : (session : ℕ) → MessageType → List ℕ → Callback
  read_errors : Error → Callback
  closes : Option CloseMessageDetails → Callback
  close_errors : Error → Callback
  restart_errors : Error → (retry_count : ℕ) → Callback

pub data Reply : Type 0 where
  opened : Error → Bool → Reply
  signaled : Signals → Reply
  closed : Option CloseMessageDetails → Reply
  noted : Reply
  retried : Bool → Reply

module _ {C : Type 0} (client : WebsocketClient C) where
  unfoldable pub call : Callback → C → C × Reply
  call (opens restarting) c =
      let (c', err, exits) = client.on_open restarting c in (c', opened err exits)
  call (messages session ty msg) c =
      let (c', sg) = client.on_message session ty msg c in (c', signaled sg)
  call (read_errors err) c = let (c', sg) = client.on_read_error err c in (c', signaled sg)
  call (closes m) c = let (c', reply) = client.on_close m c in (c', closed reply)
  call (close_errors err) c = (client.on_close_error err c, noted)
  call (restart_errors err k) c =
      let (c', exits) = client.on_restart_error err k c in (c', retried exits)

  -- The calls in turn, with their replies.
  unfoldable pub run : List Callback → C → C × List Reply
  unfolding call
  run [] c = (c, [])
  run (cb ∷ cbs) c =
      let (c', reply) = call cb c in let (c'', replies) = run cbs c' in (c'', reply ∷ replies)
