-- ===== src/Security/Tests.antt =====
-- Runs of the security manager (internal/security/security.go), and instances of its theorems.
use kyoci_agent.Prelude.{
  ℕ, ◌*◌, ◌≤◌, String, str_eq_iff, ◌≡◌, ◌≢◌, refl, true, false, some, List, [], ◌∷◌, arith, count,
}
use kyoci_agent.Prelude.Int.{pos}
use kyoci_agent.Prelude.Map.{lookup, insert}
use kyoci_agent.Prelude.Text.{lower_text}
use kyoci_agent.Security.{
  SecurityConfig, second, key_of, clean, is_allowed, max_len, entry_of, key_set, new, authenticate,
  rate_limit, sanitize, validate_request, execute_request, too_large,
}
use kyoci_agent.Security.Window.{in_window}
use kyoci_agent.Security.Limit.{IsOrdered, admissions, rate_limit_bounded}
use kyoci_agent.Security.Input.{new-no_input_size}

abbrev strict : SecurityConfig
strict = record {
  enabled = true;
  api_key_hashes = "AB12" ∷ [];
  rate_limit_max = pos 2;
  rate_window_sec = pos 1;
  max_input_size = pos 5;
}

abbrev unlimited : SecurityConfig
unlimited = record strict { max_input_size = pos 0 }

abbrev requests : List (String × ℕ)
requests = ("ann", 5) ∷ ("bob", 6) ∷ ("ann", 7) ∷ ("ann", 8) ∷ ("ann", 1000000006) ∷ []

abbrev go_task : String
go_task = "go"

requests_in_order : IsOrdered 0 requests
requests_in_order = (omega arith, (omega arith, (omega arith, (omega arith, (omega arith, tt)))))

ann_twice : admissions "ann" (new strict) requests ≡ 5 ∷ 7 ∷ 1000000006 ∷ []
unfolding new key_set lower_text insert rate_limit entry_of lookup key_of
ann_twice = refl

knows_key : authenticate (λ k. "aB12") (new strict) "secret" ≡ true
unfolding new key_set lower_text insert authenticate lookup
knows_key = refl

cuts : sanitize (new strict) "a\nbcdefg" ≡ "a\nbcd"
unfolding new sanitize clean is_allowed max_len
cuts = refl

rate_limit_bounded_example :
    count (in_window (new strict).rate_window 9) (admissions "ann" (new strict) requests)
    ≤ (new strict).rate_limit_max
rate_limit_bounded_example = rate_limit_bounded strict "ann" requests refl requests_in_order 9

task_is_not_empty : go_task ≢ ""
task_is_not_empty q = let p : false ≡ true = (str_eq_iff "go" "").1 q in ground arith

new-no_input_size_example :
    ((new unlimited).rate_window ≡ 10000 * second)
    × (validate_request (new unlimited) (execute_request go_task "dev" "s")
        ≡ some (too_large (pos 0)))
new-no_input_size_example = new-no_input_size unlimited go_task "dev" "s" refl task_is_not_empty
