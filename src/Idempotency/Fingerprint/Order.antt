-- ===== src/Idempotency/Fingerprint/Order.antt =====
-- The sort of the query parameters forgets their order, and no more.
use thryve_financial.Base.{
  ◌≡◌, refl, sym, ap, ◌∙◌, String, true, false, List, [], ◌∷◌, arith, eq_iff, sort_by, insert_by,
  insert_by_comm, text_leb-total, text_leb_trans, text_leb-anti,
}
use mathlib.Core.List.{Perm, foldr, is_set}
use mathlib.Core.List.Perm
use text.Mathlib.TextEquality.{IsScalar-prop}
use thryve_financial.Idempotency.Resolution.{Parameter}
use thryve_financial.Idempotency.Fingerprint.{pair_leb}

String-set : IsSet String
String-set = hlevel (IsScalar-prop)

Parameter-set : IsSet Parameter
Parameter-set = hlevel (String-set)

pair_leb-total : (p q : Parameter) → pair_leb p q ≡ false → pair_leb q p ≡ true
unfolding pair_leb
pair_leb-total p q h = ground (
  arith,
  h,
  eq_iff p.key q.key,
  eq_iff q.key p.key,
  text_leb-total p.key q.key,
  text_leb-total p.value q.value,
)

Parameter-eq : (p q : Parameter) → p.key ≡ q.key → p.value ≡ q.value → p ≡ q
Parameter-eq p q k v = λ i. record { key = k i; value = v i }

pair_leb-anti : (p q : Parameter) → pair_leb p q ≡ true → pair_leb q p ≡ true → p ≡ q
unfolding pair_leb
pair_leb-anti p q h k = ground (
  arith,
  h,
  k,
  eq_iff p.key q.key,
  eq_iff q.key p.key,
  text_leb-anti p.key q.key,
  text_leb-anti p.value q.value,
  Parameter-eq p q,
)

pair_leb_trans :
    (p q r : Parameter) → pair_leb p q ≡ true → pair_leb q r ≡ true → pair_leb p r ≡ true
unfolding pair_leb
pair_leb_trans p q r h k = ground (
  arith,
  h,
  k,
  eq_iff p.key q.key,
  eq_iff q.key r.key,
  eq_iff p.key r.key,
  text_leb_trans p.key q.key r.key,
  text_leb_trans p.value q.value r.value,
  text_leb-anti p.key q.key,
)

sort_by-foldr : (l : List Parameter) → sort_by pair_leb l ≡ foldr (insert_by pair_leb) [] l
unfolding sort_by
sort_by-foldr [] = refl
sort_by-foldr (p ∷ l) = ap (insert_by pair_leb p) (sort_by-foldr l)

insert_commutes :
    (p q : Parameter) (l : List Parameter)
    → insert_by pair_leb p (insert_by pair_leb q l) ≡ insert_by pair_leb q (insert_by pair_leb p l)
insert_commutes p q =
    insert_by_comm pair_leb p q (pair_leb-total p q) (pair_leb-anti p q) (λ r. pair_leb_trans p q r)
      (λ r. pair_leb_trans q p r)

pub sort_by-eq : {l m : List Parameter} → Perm l m → sort_by pair_leb l ≡ sort_by pair_leb m
sort_by-eq {l} {m} p =
    sort_by-foldr l
    ∙ Perm.foldr-eq (is_set Parameter-set) (insert_by pair_leb) insert_commutes p []
    ∙ sym (sort_by-foldr m)
