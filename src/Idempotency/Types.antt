-- ===== src/Idempotency/Types.antt =====
-- The data of pfm/app/core/idempotency.py and the row of pfm/app/models/idempotency.py.
-- Times are microseconds, as in `datetime`; a UUID is a number. The `status` column holds only the
-- two values of its enum, and `result_ref` only what `as_json` writes, at those types.
use thryve_financial.Base.{
  Dict, ℕ, ◌*◌, ◌&&◌, String, Bool, false, true, Option, none, some, ltb, leb,
}
use Prim.Native.String.{◌++◌}

-- `timedelta(seconds=n)`
abbrev pub seconds : ℕ → ℕ
seconds n = n * 1000000

pub data IdempotencyRecordStatus : Type 0 where
  processing completed : IdempotencyRecordStatus

pub data IdempotencyResponseStatus : Type 0 where
  created replayed in_progress : IdempotencyResponseStatus

abbrev pub response_status_value : IdempotencyResponseStatus → String
response_status_value created = "created"
response_status_value replayed = "replayed"
response_status_value in_progress = "in_progress"

pub data IdempotencyScopeKind : Type 0 where
  user anonymous : IdempotencyScopeKind

abbrev pub scope_kind_value : IdempotencyScopeKind → String
scope_kind_value user = "user"
scope_kind_value anonymous = "anon"

pub data IdempotencyStorageSource : Type 0 where
  database nowhere : IdempotencyStorageSource

pub record IdempotencyScope : Type 0 where
  pub kind : IdempotencyScopeKind
  pub subject : String

abbrev pub scope_value : IdempotencyScope → String
scope_value s = scope_kind_value s.kind ++ (":" ++ s.subject)

pub record IdempotencyPolicy : Type 0 where
  pub retention_seconds : ℕ
  pub processing_lease_seconds : ℕ
  pub fingerprint_version : ℕ

-- A JSON value, which this code stores and hands on without looking inside.
mutual
  pub data Json : Type 0 where
    null : Json
    bool : Bool → Json
    number : ℕ → Json
    text : String → Json
    array : Items → Json
    object : Members → Json

  pub data Items : Type 0 where
    nil : Items
    cons : Json → Items → Items

  pub data Members : Type 0 where
    end : Members
    member : String → Json → Members → Members

pub record IdempotencyResultRef : Type 0 where
  pub serializer : String
  pub version : ℕ
  pub reference : Members

-- The `dict` that a result reference is stored as: each key may be missing.
pub record ResultRefJson : Type 0 where
  pub serializer : Option String
  pub version : Option ℕ
  pub reference : Option Members

unfoldable pub as_json : IdempotencyResultRef → ResultRefJson
as_json r = record {
  serializer = some r.serializer;
  version = some r.version;
  reference = some r.reference;
}

abbrev get_or {ℓ} : {A : Type ℓ} → Option A → A → A
get_or none a = a
get_or (some a) b = a

-- `none` is the `KeyError` of a payload with no serializer.
unfoldable pub from_json : ResultRefJson → Option IdempotencyResultRef
from_json p = elim p.serializer [
  | none ↦ none
  | some name ↦ some (record {
    serializer = name;
    version = get_or p.version 1;
    reference = get_or p.reference end;
  })
]

-- A response as this code uses it.
pub record Response : Type 0 where
  pub status_code : ℕ
  pub headers : Dict String
  pub body : String

pub record IdempotentOperationResult : Type 0 where
  pub response : Response
  pub result_ref : IdempotencyResultRef
  pub persist : Option Bool
  pub result_type : Option String
  pub error_code : Option String

unfoldable pub should_persist : IdempotentOperationResult → Bool
should_persist r = elim r.persist [
  | some persist ↦ persist
  | none ↦ leb 200 r.response.status_code && ltb r.response.status_code 300
]

pub record ResolvedIdempotencyRequest : Type 0 where
  pub key : String
  pub key_hash : String
  pub scope : IdempotencyScope
  pub endpoint : String
  pub fingerprint_hash : String
  pub fingerprint_version : ℕ

pub data Claim : Type 0 where
  claimed_request : ℕ → String → Bool → Claim
  replay_target : ℕ → IdempotencyStorageSource → Claim
  in_progress_target : ℕ → Claim

-- What a call may raise.
pub data Failure : Type 0 where
  key_required scope_required payload_mismatch missing_replay_metadata missing_serializer_key
        stale_data database_error :
      Failure
  still_in_progress : Option ℕ → Failure
  no_serializer : String → Failure
  raised_by_operation raised_by_serializer : String → Failure

pub record IdempotencyRequest : Type 0 where
  pub id : ℕ
  pub scope : String
  pub idempotency_key : String
  pub endpoint : String
  pub fingerprint_hash : String
  pub fingerprint_version : ℕ
  pub status : IdempotencyRecordStatus
  pub lease_owner : Option String
  pub lease_expires_at : Option ℕ
  pub result_type : Option String
  pub result_ref : Option ResultRefJson
  pub response_status_code : Option ℕ
  pub error_code : Option String
  pub replay_count : ℕ
  pub last_replayed_at : Option ℕ
  pub expires_at : ℕ

-- `record.status == COMPLETED`
abbrev pub is_completed : IdempotencyRequest → Bool
is_completed r = elim r.status [ completed ↦ true | processing ↦ false ]

abbrev pub is_processing : IdempotencyRequest → Bool
is_processing r = elim r.status [ completed ↦ false | processing ↦ true ]
