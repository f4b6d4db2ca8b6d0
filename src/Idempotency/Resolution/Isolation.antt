-- ===== src/Idempotency/Resolution/Isolation.antt =====
-- No two callers share a scope.
use thryve_financial.Base.{
  ◌≡◌, ◌≢◌, refl, sym, ap, ◌∙◌, String, false, none, some, arith, truthy, remove_prefix,
  remove_prefix-append, remove_prefix-none, if◌then◌else◌,
}
use Prim.Native.String.{◌++◌}
use thryve_financial.Idempotency.Types.{
  IdempotencyScope, IdempotencyScopeKind, user, anonymous, scope_value, scope_kind_value,
}
use thryve_financial.Idempotency.Resolution.{MutationRequest, resolved_to, resolve_scope}

some-eq : {s t : String} → some s ≡ some t → s ≡ t
some-eq e = ground (arith, e)

prefix_cancel : (p s t : String) → p ++ s ≡ p ++ t → s ≡ t
prefix_cancel p s t e =
    some-eq (sym (remove_prefix-append p s) ∙ ap (remove_prefix p) e ∙ remove_prefix-append p t)

user_not_anonymous : (s t : String) → "user" ++ s ≢ "anon" ++ t
user_not_anonymous s t e =
    let found : some s ≡ none =
      sym (remove_prefix-append "user" s)
      ∙ ap (remove_prefix "user") e
      ∙ remove_prefix-none "u" "a" "ser" "non" t refl in
    ground (arith, found)

-- Scopes with the same value are of the same kind and the same subject.
abbrev pub IsSame : IdempotencyScope → IdempotencyScope → Type 0
IsSame s t = (s.kind ≡ t.kind) × (s.subject ≡ t.subject)

pub scope_value-IsSame :
    (kind other : IdempotencyScopeKind) (s t : String)
    → scope_kind_value kind ++ (":" ++ s) ≡ scope_kind_value other ++ (":" ++ t)
    → (kind ≡ other) × (s ≡ t)
scope_value-IsSame user user s t e =
    (refl, prefix_cancel ":" s t (prefix_cancel "user" (":" ++ s) (":" ++ t) e))
scope_value-IsSame anonymous anonymous s t e =
    (refl, prefix_cancel ":" s t (prefix_cancel "anon" (":" ++ s) (":" ++ t) e))
scope_value-IsSame user anonymous s t e = absurd (user_not_anonymous (":" ++ s) (":" ++ t) e)
scope_value-IsSame anonymous user s t e = absurd (user_not_anonymous (":" ++ t) (":" ++ s) (sym e))

-- Two requests whose scopes have the same value are of the same user, or of no user and of the
-- same anonymous id.
pub resolved_scope_isolates :
    (r other : MutationRequest) (key other_key : String) (s t : IdempotencyScope)
    → resolve_scope r ≡ resolved_to key s
    → resolve_scope other ≡ resolved_to other_key t
    → scope_value s ≡ scope_value t
    → if truthy r.user_id
      then other.user_id ≡ r.user_id
      else (truthy other.user_id ≡ false) × (other.anonymous_id ≡ r.anonymous_id)
unfolding resolve_scope
resolved_scope_isolates r other key other_key s t h k e =
    ground (arith, h, k, scope_value-IsSame s.kind t.kind s.subject t.subject e)
