-- ===== src/Apperr/Tests.antt =====
-- Chains of errors (internal/apperr), and the theorems about them at the sentinels of the router.
use kyoci_agent.Prelude.{◌≡◌, refl, str_eq, true, false, [], ◌∷◌, ◌==◌}
use kyoci_agent.Apperr.{
  Info, kind_provider_exhausted, kind_unavailable, leaf, caused, wrapping, errors_is, has_code,
  is_kind, kind_number, error_text, wrap,
}
use kyoci_agent.Apperr.Chain.{wrap_foreign, wrapped_code_hidden}

abbrev no_providers : Info
no_providers = record {
  address = 1;
  code = "llm.no_providers";
  kind = kind_provider_exhausted;
  message = "no providers available";
  fields = [];
}

abbrev select_failed : Info
select_failed = record {
  address = 2;
  code = "llm.select_failed";
  kind = kind_unavailable;
  message = "failed to select provider";
  fields = [];
}

text_run :
    error_text
      (wrap 2 "llm.select_failed" kind_unavailable (leaf no_providers) "failed to select provider")
    ≡ "failed to select provider: no providers available"
unfolding error_text wrap
text_run = refl

hidden_run : has_code (caused select_failed (leaf no_providers)) "llm.no_providers" ≡ false
unfolding has_code
hidden_run = refl

is_found : errors_is (leaf no_providers) (leaf no_providers) ≡ true
unfolding errors_is
is_found = refl

outer_found : has_code (wrapping 7 "task: no" (leaf no_providers)) "llm.no_providers" ≡ true
unfolding has_code
outer_found = refl

wrapped_code_hidden_example :
    let err = wrap_foreign ((7, "task: no") ∷ []) (caused select_failed (leaf no_providers)) in
    (errors_is err (leaf no_providers) ≡ true)
    × (has_code err "llm.no_providers" ≡ false)
    × (has_code err "llm.select_failed" ≡ str_eq "llm.select_failed" "llm.select_failed")
    × (is_kind err (kind_provider_exhausted ∷ [])
        ≡ (kind_number kind_unavailable == kind_number kind_provider_exhausted))
wrapped_code_hidden_example =
    wrapped_code_hidden ((7, "task: no") ∷ []) select_failed (leaf no_providers) no_providers
      "llm.select_failed" kind_provider_exhausted is_found (λ e. cc)
