-- ===== src/Mocks/Adapter.antt =====
-- wscengine/wsadapters/websocket_connection_adapter_mock.go
use gowsclient.Base.{ℕ, String, Option, List, [], ◌∷◌}
use gowsclient.Errors.{Error}
use gowsclient.Adapters.Constants.{StatusCode, MessageType}
use gowsclient.Adapters.Interface.{ReadResult}
use gowsclient.Mocks.{
  context, target, code, text, message_type, bytes, Testify, Ending, answers, or_panic,
}

module _ {Url Response : Type 0} (lib : Testify Url Response) where
  open lib use {Mock, Value, empty_mock, called, get, error_at, int_at, as_response, as_bytes}

  abbrev pub new_adapter_mock : Mock
  new_adapter_mock = empty_mock

  unfoldable pub mocked_dial : Error → Url → Mock → Ending (Mock × Option Response × Error)
  mocked_dial ctx url m = or_panic (called "Dial" (context ctx ∷ target url ∷ []) m) (λ (m', args).
      or_panic (get 0 args) (λ value.
        or_panic (as_response value)
          (λ resp. or_panic (error_at 1 args) (λ err. answers (m', resp, err)))))

  unfoldable pub mocked_close : Error → StatusCode → String → Mock → Ending (Mock × Error)
  mocked_close ctx status reason m =
      or_panic (called "Close" (context ctx ∷ code status ∷ text reason ∷ []) m)
        (λ (m', args). or_panic (error_at 0 args) (λ err. answers (m', err)))

  unfoldable pub mocked_ping : Error → Mock → Ending (Mock × Error)
  mocked_ping ctx m =
      or_panic (called "Ping" (context ctx ∷ []) m)
        (λ (m', args). or_panic (error_at 0 args) (λ err. answers (m', err)))

  unfoldable pub mocked_read : Error → Mock → Ending (Mock × ReadResult)
  mocked_read ctx m = or_panic (called "Read" (context ctx ∷ []) m) (λ (m', args).
      or_panic (int_at 0 args) (λ ty. or_panic (get 1 args) (λ value.
        or_panic (as_bytes value) (λ bs.
          or_panic (error_at 2 args)
            (λ e. answers (m', record { msg_type = ty; msg = bs; err = e }))))))

  unfoldable pub mocked_write : Error → MessageType → List ℕ → Mock → Ending (Mock × Error)
  mocked_write ctx ty msg m =
      or_panic (called "Write" (context ctx ∷ message_type ty ∷ bytes msg ∷ []) m)
        (λ (m', args). or_panic (error_at 0 args) (λ err. answers (m', err)))

  unfoldable pub mocked_underlying : Mock → Ending (Mock × Value)
  mocked_underlying m =
      or_panic (called "GetUnderlyingWebsocketConnection" [] m)
        (λ (m', args). or_panic (get 0 args) (λ value. answers (m', value)))
