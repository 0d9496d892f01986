-- ===== src/Apperr.antt =====
-- Errors with a code and a kind (internal/apperr). An error value has an address, since errors.Is
-- compares pointers first; a value in the fields is its text. errors.As and errors.Is follow Go's
-- standard library on chains of single causes.
pub mod Chain
pub mod Status
mod Tests
use kyoci_agent.Prelude.{
  ℕ, String, str_append, str_eq, Bool, true, false, not, ◌&&◌, ◌||◌, Option, none, some, List, [],
  ◌∷◌, ◌==◌, any, if◌then◌else◌, eq_String,
}
use kyoci_agent.Prelude.Map.{Map, insert}

pub data Kind : Type 0 where
  kind_unknown : Kind
  kind_not_found : Kind
  kind_unavailable : Kind
  kind_invalid : Kind
  kind_unauthorized : Kind
  kind_conflict : Kind
  kind_internal : Kind
  kind_circuit_open : Kind
  kind_provider_exhausted : Kind
  kind_deadline : Kind
  kind_canceled : Kind
  kind_not_implemented : Kind

-- An *Error without its cause.
pub record Info : Type 0 where
  pub address : ℕ
  pub code : String
  pub kind : Kind
  pub message : String
  pub fields : Map String String

-- An error of another package without a cause, one that wraps another, and an *Error likewise.
pub data GoError : Type 0 where
  plain : ℕ → String → GoError
  wrapping : ℕ → String → GoError → GoError
  leaf : Info → GoError
  caused : Info → GoError → GoError

-- The texts; the text of a foreign error includes that of its cause.
unfoldable pub error_text : GoError → String
error_text (plain a text) = text
error_text (wrapping a text cause) = text
error_text (leaf e) = e.message
error_text (caused e cause) = str_append e.message (str_append ": " (error_text cause))

unfoldable pub unwrap : GoError → Option GoError
unwrap (plain a text) = none
unwrap (wrapping a text cause) = some cause
unwrap (leaf e) = none
unwrap (caused e cause) = some cause

abbrev pub address_of : GoError → ℕ
address_of (plain a text) = a
address_of (wrapping a text cause) = a
address_of (leaf e) = e.address
address_of (caused e cause) = e.address

-- AsError, by errors.As for *Error.
unfoldable pub as_error : GoError → Option Info
as_error (plain a text) = none
as_error (wrapping a text cause) = as_error cause
as_error (leaf e) = some e
as_error (caused e cause) = some e

-- The method Is of *Error.
unfoldable pub is_method : Info → GoError → Bool
unfolding as_error
is_method e target = elim (as_error target) [
  | none ↦ false
  | some t ↦ not (str_eq e.code "") && str_eq e.code t.code
]

-- errors.Is
unfoldable pub errors_is : GoError → GoError → Bool
unfolding is_method
errors_is (plain a text) target = a == address_of target
errors_is (wrapping a text cause) target = a == address_of target || errors_is cause target
errors_is (leaf e) target = e.address == address_of target || is_method e target
errors_is (caused e cause) target =
    e.address == address_of target || is_method e target || errors_is cause target

-- With, for the address that the copy gets.
unfoldable pub with_field : ℕ → Info → String → String → Info
with_field address e key value = record e { address = address; fields = insert key value e.fields }

unfoldable pub new_error : ℕ → String → Kind → String → GoError
new_error address code kind message =
    leaf (record { address = address; code = code; kind = kind; message = message; fields = [] })

unfoldable pub wrap : ℕ → String → Kind → GoError → String → GoError
wrap address code kind cause message =
    caused (record { address = address; code = code; kind = kind; message = message; fields = [] })
      cause

unfoldable pub kind_of : GoError → Kind
unfolding as_error
kind_of err = elim (as_error err) [ none ↦ kind_unknown | some e ↦ e.kind ]

abbrev pub kind_number : Kind → ℕ
kind_number kind_unknown = 0
kind_number kind_not_found = 1
kind_number kind_unavailable = 2
kind_number kind_invalid = 3
kind_number kind_unauthorized = 4
kind_number kind_conflict = 5
kind_number kind_internal = 6
kind_number kind_circuit_open = 7
kind_number kind_provider_exhausted = 8
kind_number kind_deadline = 9
kind_number kind_canceled = 10
kind_number kind_not_implemented = 11

unfoldable pub is_kind : GoError → List Kind → Bool
unfolding kind_of
is_kind err kinds = any (λ want. kind_number (kind_of err) == kind_number want) kinds

unfoldable pub has_code : GoError → String → Bool
unfolding as_error
has_code err code = elim (as_error err) [ none ↦ false | some e ↦ str_eq e.code code ]

unfoldable pub is_not_found : GoError → Bool
unfolding is_kind
is_not_found err = is_kind err (kind_not_found ∷ [])

unfoldable pub kind_string : Kind → String
kind_string kind_not_found = "not_found"
kind_string kind_unavailable = "unavailable"
kind_string kind_invalid = "invalid"
kind_string kind_unauthorized = "unauthorized"
kind_string kind_conflict = "conflict"
kind_string kind_internal = "internal"
kind_string kind_circuit_open = "circuit_open"
kind_string kind_provider_exhausted = "provider_exhausted"
kind_string kind_deadline = "deadline"
kind_string kind_canceled = "canceled"
kind_string kind_not_implemented = "not_implemented"
kind_string kind_unknown = "unknown"

unfoldable pub code_to_http : Kind → ℕ
code_to_http kind_not_found = 404
code_to_http kind_unavailable = 503
code_to_http kind_circuit_open = 503
code_to_http kind_provider_exhausted = 503
code_to_http kind_invalid = 400
code_to_http kind_unauthorized = 401
code_to_http kind_conflict = 409
code_to_http kind_deadline = 504
code_to_http kind_canceled = 499
code_to_http kind_not_implemented = 501
code_to_http kind_internal = 500
code_to_http kind_unknown = 500

-- A status of gRPC: the number of its code, and its message.
unfoldable pub code_to_grpc : Kind → ℕ × String
unfolding kind_string
code_to_grpc kind_not_found = (5, kind_string kind_not_found)
code_to_grpc kind_unavailable = (14, kind_string kind_unavailable)
code_to_grpc kind_circuit_open = (14, kind_string kind_circuit_open)
code_to_grpc kind_provider_exhausted = (14, kind_string kind_provider_exhausted)
code_to_grpc kind_invalid = (3, kind_string kind_invalid)
code_to_grpc kind_unauthorized = (16, kind_string kind_unauthorized)
code_to_grpc kind_conflict = (6, kind_string kind_conflict)
code_to_grpc kind_deadline = (4, kind_string kind_deadline)
code_to_grpc kind_canceled = (1, kind_string kind_canceled)
code_to_grpc kind_not_implemented = (12, kind_string kind_not_implemented)
code_to_grpc kind_internal = (13, kind_string kind_internal)
code_to_grpc kind_unknown = (13, kind_string kind_unknown)
