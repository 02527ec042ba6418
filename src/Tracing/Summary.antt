-- ===== src/Tracing/Summary.antt =====
-- What a backend of OpenTelemetry shows of a span: its name, the last error that was recorded in it
-- and its last status.
use text.Mathlib.Text.{◌==◌}
use gowsclient.Base.{if◌then◌else◌, ℤ, String, ◌≡◌, Option, none, some, List, [], ◌∷◌, arith}
use gowsclient.Errors.{Error, nil}
use gowsclient.Tracing.{
  Attribute, string_attribute, int_attribute, add_event, Status, ok_status, error_status, starts,
  record_error, set_status, Span, handle_potential_error,
}

-- The name is empty for a span that was never started, the error nil where none was recorded.
pub record Summary : Type 0 where
  pub name : String
  pub error : Error
  pub status : Option Status

abbrev pub name_of : Span → String
name_of [] = ""
name_of (starts name kind attributes ∷ span) = name
name_of (_ ∷ span) = name_of span

abbrev pub error_of : Span → Error
error_of [] = nil
error_of (record_error err ∷ span) = err
error_of (_ ∷ span) = error_of span

abbrev pub status_of : Span → Option Status
status_of [] = none
status_of (set_status code description ∷ span) = some code
status_of (_ ∷ span) = status_of span

abbrev pub summary : Span → Summary
summary span = record { name = name_of span; error = error_of span; status = status_of span }

-- The attributes of the events of a name, newest first.
abbrev pub events_of : String → Span → List (List Attribute)
events_of name [] = []
events_of name (add_event event attributes ∷ span) =
    if event == name then attributes ∷ events_of name span else events_of name span
events_of name (_ ∷ span) = events_of name span

-- The errors that were recorded, newest first.
abbrev pub errors_of : Span → List Error
errors_of [] = []
errors_of (record_error err ∷ span) = err ∷ errors_of span
errors_of (_ ∷ span) = errors_of span

-- The value of a key.
abbrev pub int_at : String → List Attribute → Option ℤ
int_at key [] = none
int_at key (int_attribute k value ∷ attributes) =
    if k == key then some value else int_at key attributes
int_at key (_ ∷ attributes) = int_at key attributes

abbrev pub string_at : String → List Attribute → Option String
string_at key [] = none
string_at key (string_attribute k value ∷ attributes) =
    if k == key then some value else string_at key attributes
string_at key (_ ∷ attributes) = string_at key attributes

abbrev pub result_status : Error → Status
result_status nil = ok_status
result_status _ = error_status

-- After handlePotentialError a span without an error shows the error and whether there was one.
pub summary-handle_potential_error :
    (status_text : Status → String) (err : Error) (span : Span)
    → error_of span ≡ nil
    → summary (handle_potential_error status_text err span).0
      ≡ record { name = name_of span; error = err; status = some (result_status err) }
unfolding handle_potential_error
summary-handle_potential_error status_text nil span h =
    λ i. record { name = name_of span; error = h i; status = some ok_status }
summary-handle_potential_error status_text err span h = ground arith
