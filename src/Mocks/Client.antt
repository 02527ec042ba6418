-- ===== src/Mocks/Client.antt =====
-- wscengine/wsclient/websocket_client_mock.go
use gowsclient.Base.{
  ℕ, pos, ◌≡◌, Bool, Option, none, some, List, [], ◌∷◌, if◌then◌else◌, String, arith,
}
use gowsclient.Errors.{Error}
use gowsclient.Adapters.Constants.{MessageType}
use gowsclient.Client.{CloseMessageDetails}
use gowsclient.Mocks.{
  context, response, text, message_type, bytes, flag, number, an_error, close_details, connection,
  mutex, cancel_func, Testify, on_close_panic, Ending, answers, panics, or_panic,
}

module _ {Url Response : Type 0} (lib : Testify Url Response) where
  open lib use {
    Mock, Value, Arguments, empty_mock, called, get, error_at, is_nil_value, as_close_details,
  }

  abbrev pub new_client_mock : Mock
  new_client_mock = empty_mock

  unfoldable pub mocked_on_open :
      Error → Option Response → (restarting : Bool) → Mock → Ending (Mock × Error)
  mocked_on_open ctx resp restarting m =
      or_panic
        (called "OnOpen"
          (context ctx ∷ response resp ∷ connection ∷ mutex ∷ cancel_func ∷ flag restarting ∷ []) m)
        (λ (m', args). or_panic (error_at 0 args) (λ err. answers (m', err)))

  unfoldable pub mocked_on_message :
      Error → (session_id : String) → MessageType → List ℕ → Mock → Ending Mock
  mocked_on_message ctx session_id ty msg m =
      or_panic
        (called "OnMessage"
          (context ctx
            ∷ connection
            ∷ mutex
            ∷ cancel_func
            ∷ cancel_func
            ∷ text session_id
            ∷ message_type ty
            ∷ bytes msg
            ∷ [])
          m)
        (λ (m', args). answers m')

  unfoldable pub mocked_on_read_error : Error → Error → Mock → Ending Mock
  mocked_on_read_error ctx err m =
      or_panic
        (called "OnReadError"
          (context ctx ∷ connection ∷ mutex ∷ cancel_func ∷ cancel_func ∷ an_error err ∷ []) m)
        (λ (m', args). answers m')

  -- The type assertion: where it fails `msg` is the zero value of its type, which the panic shows.
  abbrev pub asserted :
      Mock → Option (Option CloseMessageDetails) → Ending (Mock × Option CloseMessageDetails)
  asserted m (some msg) = answers (m, msg)
  asserted m none = panics (on_close_panic none)

  unfoldable pub mocked_on_close :
      Error → Option CloseMessageDetails → Mock → Ending (Mock × Option CloseMessageDetails)
  mocked_on_close ctx msg m =
      or_panic (called "OnClose" (context ctx ∷ connection ∷ mutex ∷ close_details msg ∷ []) m)
        (λ (m', args). or_panic (get 0 args) (λ value.
          if is_nil_value value then answers (m', none) else asserted m' (as_close_details value)))

  unfoldable pub mocked_on_close_error : Error → Error → Mock → Ending Mock
  mocked_on_close_error ctx err m =
      or_panic (called "OnCloseError" (context ctx ∷ an_error err ∷ []) m)
        (λ (m', args). answers m')

  unfoldable pub mocked_on_restart_error : Error → Error → (retry_count : ℕ) → Mock → Ending Mock
  mocked_on_restart_error ctx err retry_count m =
      or_panic
        (called "OnRestartError"
          (context ctx ∷ cancel_func ∷ an_error err ∷ number (pos retry_count) ∷ []) m)
        (λ (m', args). answers m')

  -- The panic of OnClose on a value of another type never shows that value: it shows a nil pointer
  -- whatever is returned.
  mocked_on_close_shows :
      (ctx : Error) (msg shown : Option CloseMessageDetails) (m : Mock)
      → mocked_on_close ctx msg m ≡ panics (on_close_panic shown)
      → shown ≡ none
  unfolding mocked_on_close
  mocked_on_close_shows ctx msg shown m h = ground (arith, h)
