-- ===== src/Problem.antt =====
-- pfm/app/core/exceptions.py: the problems that the application raises, and how one is built. The
-- values of a log context are texts.
pub mod Classes
pub mod Registry
pub mod Factories
pub mod Response
pub mod Handlers
pub mod Answers
pub mod Laws
mod Tests
use thryve_financial.Base.{
  ℕ, String, Bool, true, false, Option, none, some, List, [], ◌∷◌, ◌==◌, ◌||◌, Dict, set_item,
  is_some, if◌then◌else◌,
}

pub data UserAction : Type 0 where
  retry reauthenticate reauthenticate_bank contact_support : UserAction

-- The class variables of a problem class, with its `_default_headers`.
pub record ProblemClass : Type 0 where
  pub status : ℕ
  pub type_slug : String
  pub title : String
  pub code : String
  pub description : String
  pub default_detail : String
  pub retryable_default : Bool
  pub default_user_action : Option UserAction
  pub allowed_user_actions : List (Option UserAction)
  pub default_log_level : String
  pub default_headers : Dict String

pub record ProblemDefinition : Type 0 where
  pub type_slug : String
  pub title : String
  pub status : ℕ
  pub code : String
  pub description : String
  pub default_detail : String
  pub retryable : Bool
  pub user_action : Option UserAction

abbrev pub definition : ProblemClass → ProblemDefinition
definition c = record {
  type_slug = c.type_slug;
  title = c.title;
  status = c.status;
  code = c.code;
  description = c.description;
  default_detail = c.default_detail;
  retryable = c.retryable_default;
  user_action = c.default_user_action;
}

pub data ErrorSource : Type 0 where
  body query path header cookie unknown : ErrorSource

pub record ProblemFieldError : Type 0 where
  pub source : ErrorSource
  pub field : Option String
  pub code : String
  pub message : String

pub record ProblemUpstream : Type 0 where
  pub provider : String
  pub provider_code : Option String
  pub provider_request_id : Option String

-- The keyword arguments of `_build`; a `user_action` that is `none` is the unset one.
pub record BuildArguments : Type 0 where
  pub detail : Option String
  pub errors : Option (List ProblemFieldError)
  pub details : Option (List String)
  pub upstream : Option ProblemUpstream
  pub user_action : Option (Option UserAction)
  pub log_level : Option String
  pub extra_log_context : Option (Dict String)
  pub status : Option ℕ
  pub title : Option String
  pub type_slug : Option String
  pub code : Option String
  pub headers : Option (Dict String)
  pub retryable : Option Bool

-- `_build()` without an argument.
abbrev pub unset : BuildArguments
unset = record {
  detail = none;
  errors = none;
  details = none;
  upstream = none;
  user_action = none;
  log_level = none;
  extra_log_context = none;
  status = none;
  title = none;
  type_slug = none;
  code = none;
  headers = none;
  retryable = none;
}

pub record Problem : Type 0 where
  pub detail : String
  pub status : ℕ
  pub title : String
  pub type_slug : String
  pub code : String
  pub headers : Dict String
  pub errors : Option (List ProblemFieldError)
  pub details : Option (List String)
  pub upstream : Option ProblemUpstream
  pub retryable : Bool
  pub user_action : Option UserAction
  pub log_level : String
  pub extra_log_context : Dict String

-- `default if x is None else x`
abbrev pub given {ℓ} : {A : Type ℓ} → Option A → A → A
given none fallback = fallback
given (some a) fallback = a

-- Python's `x or fallback` for an optional text.
abbrev pub or_default : Option String → String → String
or_default none fallback = fallback
or_default (some s) fallback = if s == "" then fallback else s

abbrev pub same_action : Option UserAction → Option UserAction → Bool
same_action none none = true
same_action (some retry) (some retry) = true
same_action (some reauthenticate) (some reauthenticate) = true
same_action (some reauthenticate_bank) (some reauthenticate_bank) = true
same_action (some contact_support) (some contact_support) = true
same_action a b = false

abbrev pub is_allowed : Option UserAction → List (Option UserAction) → Bool
is_allowed a [] = false
is_allowed a (b ∷ bs) = same_action a b || is_allowed a bs

-- `d.update(other)`
unfoldable pub update : Dict String → Dict String → Dict String
unfolding set_item
update d [] = d
update d ((key, value) ∷ rest) = update (set_item d key value) rest

-- The problem with its user action resolved.
abbrev pub built : ProblemClass → BuildArguments → Problem
built c a = record {
  detail = or_default a.detail c.default_detail;
  status = given a.status c.status;
  title = given a.title c.title;
  type_slug = given a.type_slug c.type_slug;
  code = given a.code c.code;
  headers = update c.default_headers (given a.headers []);
  errors = a.errors;
  details = a.details;
  upstream = a.upstream;
  retryable = given a.retryable c.retryable_default;
  user_action = given a.user_action c.default_user_action;
  log_level = or_default a.log_level c.default_log_level;
  extra_log_context = given a.extra_log_context [];
}

-- `_build`; `none` is its `ValueError`.
unfoldable pub build : ProblemClass → BuildArguments → Option Problem
unfolding update
build c a =
    if is_allowed (given a.user_action c.default_user_action) c.allowed_user_actions
    then some (built c a)
    else none
