-- ===== src/Problem/Tests.antt =====
-- Problems at small inputs.
use thryve_financial.Base.{
  parse_int, signed, more_digits, ends_with, join_dots, ◌≡◌, refl, inl, inr, String, false, none,
  some, [], ◌∷◌, str, strip, lstrip, rstrip, before, remove_prefix,
}
use thryve_financial.Problem.{Problem, BuildArguments, unset, built}
use thryve_financial.Problem.Classes.{unsupported_media_type_error}
use thryve_financial.Problem.Registry.{problem_types}
use thryve_financial.Problem.Response.{
  Surroundings, problem_response, normalized_base_url, without_slashes,
}
use thryve_financial.Problem.Handlers.{
  Cases, RequestHead, Exception, request_validation_error, name, index, handled_problem, field_name,
  validation_problem_for_request, any_json_invalid, any_body_related, request_has_body,
  content_type_is_supported,
}
use thryve_financial.Problem.Answers.{IsRegistered, IsAnsweredWith, exceptions_answered}

forty_two : str 42 ≡ "42"
unfolding str
forty_two = refl

abbrev later : BuildArguments
later = record unset { headers = some (("Retry-After", "7") ∷ []) }

abbrev surroundings : Surroundings
surroundings = record {
  join = λ base path. base;
  settings = record { is_development = false; public_base_url = "https://api.example/" };
  request = record {
    base_url = "http://localhost/";
    url = "http://localhost/x";
    idempotency_key = some "k1";
  };
  correlation_id = some "r1";
}

media-IsRegistered : IsRegistered unsupported_media_type_error problem_types
media-IsRegistered = inr (inl refl)

abbrev same : String → String
same s = s

abbrev cases : Cases
cases = record { lower = same; upper = same }

-- A form field that is missing, in a body of a type that is not read.
abbrev head : RequestHead
head = record {
  method = "POST";
  content_length = some " 12";
  transfer_encoding = none;
  content_type = some "text/csv; charset=utf-8";
}

abbrev missing_field : Exception
missing_field = request_validation_error (
    record {
      loc = some (name "body" ∷ name "items" ∷ index 3 ∷ []);
      error_type = some "missing";
      msg = none;
    }
    ∷ [])

exceptions_answered_example :
    (p : Problem) × (handled_problem cases (λ s. none) head missing_field ≡ some p)
    × IsAnsweredWith missing_field (problem_response surroundings p).status_code
    × ((problem_response surroundings p).content.status
        ≡ (problem_response surroundings p).status_code)
exceptions_answered_example =
    exceptions_answered cases (λ s. none) head surroundings missing_field refl

unsupported :
    handled_problem cases (λ s. none) head missing_field
    ≡ some (built unsupported_media_type_error unset)
unfolding handled_problem validation_problem_for_request any_json_invalid any_body_related
    request_has_body parse_int signed more_digits content_type_is_supported strip lstrip rstrip
    before ends_with remove_prefix
unsupported = refl

joined : field_name (name "items" ∷ index 3 ∷ []) ≡ some "items.3"
unfolding field_name join_dots str
joined = refl

base : normalized_base_url surroundings.settings surroundings.request ≡ "https://api.example"
unfolding normalized_base_url without_slashes
base = refl
