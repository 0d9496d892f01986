-- ===== src/Apperr/Chain.antt =====
-- What errors.Is, HasCode and IsKind (internal/apperr/apperr.go) find in a chain of errors.
use kyoci_agent.Prelude.{
  ℕ, ◌≡◌, ◌≢◌, refl, String, str_eq, str_eq_iff, str_eq_refl, true, false, List, [], ◌∷◌, ◌==◌,
  arith,
}
use kyoci_agent.Apperr.{
  Kind, GoError, plain, wrapping, leaf, caused, Info, as_error, is_method, errors_is, with_field,
  kind_of, is_kind, has_code, kind_number,
}

-- An error that HasCode finds by its code is found by errors.Is with a sentinel of that code.
pub has_code-errors_is :
    (err : GoError) (sentinel : Info)
    → sentinel.code ≢ ""
    → has_code err sentinel.code ≡ true
    → errors_is err (leaf sentinel) ≡ true
unfolding has_code errors_is is_method as_error
has_code-errors_is (plain a text) sentinel named found = cc
has_code-errors_is (wrapping a text cause) sentinel named found =
    ground (arith, has_code-errors_is cause sentinel named found)
has_code-errors_is (leaf e) sentinel named found =
    ground (arith, found, named, str_eq_iff e.code sentinel.code, str_eq_iff e.code "")
has_code-errors_is (caused e cause) sentinel named found =
    ground (arith, found, named, str_eq_iff e.code sentinel.code, str_eq_iff e.code "")

-- An error inside layers of errors of other packages, the first outermost.
abbrev pub wrap_foreign : List (ℕ × String) → GoError → GoError
wrap_foreign [] err = err
wrap_foreign ((a, text) ∷ layers) err = wrapping a text (wrap_foreign layers err)

-- An error with a sentinel in its chain that is wrapped by an *Error with another code, and then any
-- number of times by errors of other packages, is still found by errors.Is with the sentinel, but not
-- by HasCode with the sentinel's code: of all codes it has that of the outermost *Error only, and of all
-- kinds IsKind finds the kind of that one only.
pub wrapped_code_hidden :
    (layers : List (ℕ × String)) (outer : Info) (cause : GoError) (sentinel : Info) (code : String)
    (kind : Kind)
    → errors_is cause (leaf sentinel) ≡ true
    → outer.code ≢ sentinel.code
    → let err = wrap_foreign layers (caused outer cause) in
      (errors_is err (leaf sentinel) ≡ true)
      × (has_code err sentinel.code ≡ false)
      × (has_code err code ≡ str_eq outer.code code)
      × (is_kind err (kind ∷ []) ≡ (kind_number outer.kind == kind_number kind))
unfolding has_code errors_is is_kind kind_of as_error
wrapped_code_hidden [] outer cause sentinel code kind found differs =
    (ground (arith, found), ground (arith, str_eq_iff outer.code sentinel.code), refl, ground arith)
wrapped_code_hidden ((a, text) ∷ layers) outer cause sentinel code kind found differs =
    let (is_found, hidden, outermost, only_kind) =
      wrapped_code_hidden layers outer cause sentinel code kind found differs in
    (ground (arith, is_found), hidden, outermost, only_kind)

abbrev pub wrap_all : List Info → GoError → GoError
wrap_all [] err = err
wrap_all (e ∷ es) err = caused e (wrap_all es err)

-- A copy that With makes of a sentinel with a code, wrapped any number of times, is found by
-- errors.Is with the sentinel, whatever is added to the fields and at whatever address.
pub errors_is-with_field :
    (sentinel : Info) (wrappers : List Info) (address : ℕ) (key value : String)
    → sentinel.code ≢ ""
    → errors_is (wrap_all wrappers (leaf (with_field address sentinel key value))) (leaf sentinel)
      ≡ true
unfolding errors_is with_field is_method as_error
errors_is-with_field sentinel [] address key value named =
    ground (arith, named, str_eq_iff sentinel.code "", str_eq_refl sentinel.code)
errors_is-with_field sentinel (e ∷ es) address key value named =
    ground (arith, errors_is-with_field sentinel es address key value named)
