-- ===== src/Mocks.antt =====
-- The mocks of the repository, over the package testify/mock: the embedded mock.Mock and the
-- Arguments that its method Called returns are parameters.
use gowsclient.Base.{ℕ, ℤ, String, Bool, Option, none, some, List}
use gowsclient.Errors.{Error}
use gowsclient.Adapters.Constants.{StatusCode, MessageType}
use gowsclient.Client.{CloseMessageDetails}
pub mod Client
pub mod Adapter

-- What a mocked method hands to Called. Pointers and functions that it only passes on are left out
-- of the value: a connection, a mutex and a cancel function are named by their kind.
pub data Argument (Url Response : Type 0) : Type 0 where
  context : Error → Argument Url Response
  target : Url → Argument Url Response
  response : Option Response → Argument Url Response
  code : StatusCode → Argument Url Response
  text : String → Argument Url Response
  message_type : MessageType → Argument Url Response
  bytes : List ℕ → Argument Url Response
  flag : Bool → Argument Url Response
  number : ℤ → Argument Url Response
  an_error : Error → Argument Url Response
  close_details : Option CloseMessageDetails → Argument Url Response
  connection : Argument Url Response
  mutex : Argument Url Response
  cancel_func : Argument Url Response

-- A mock.Mock, a Go `any`, and an Arguments. Called is named by its caller, and it panics where
-- nothing is set up for the call, as the accessors do on an index or a type that does not fit:
-- `none`. The type assertions are `none` where they fail.
pub record Testify (Url Response : Type 0) : Type 1 where
  pub Mock : Type 0
  pub Value : Type 0
  pub Arguments : Type 0
  pub empty_mock : Mock
  pub called : String → List (Argument Url Response) → Mock → Option (Mock × Arguments)
  pub get : ℕ → Arguments → Option Value
  pub error_at : ℕ → Arguments → Option Error
  pub int_at : ℕ → Arguments → Option ℤ
  pub is_nil_value : Value → Bool
  pub as_response : Value → Option (Option Response)
  pub as_bytes : Value → Option (List ℕ)
  pub as_close_details : Value → Option (Option CloseMessageDetails)

-- How a mocked method ends. The panic of OnClose shows a pointer.
pub data Panic : Type 0 where
  other_panic : Panic
  on_close_panic : Option CloseMessageDetails → Panic

pub data Ending (A : Type 0) : Type 0 where
  answers : A → Ending A
  panics : Panic → Ending A

abbrev pub or_panic : {A B : Type 0} → Option A → (A → Ending B) → Ending B
or_panic none k = panics other_panic
or_panic (some a) k = k a
