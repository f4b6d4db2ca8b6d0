-- ===== src/Auth/Directory/Linking.antt =====
-- Whom an identity belongs to after an upsert.
use thryve_financial.Base.{
  ℕ, ◌≡◌, refl, sym, ◌∙◌, ap, String, Bool, true, false, Option, none, some, List, ◌∷◌, ◌==◌, ◌&&◌,
  ◌||◌, eqb, first, not, is_some, arith, eq_refl, if◌then◌else◌,
}
use thryve_financial.Auth.Directory.{
  User, AuthIdentityRecord, ProviderUserProfile, Directory, Visit, Upsert, upserted, refused,
  get_user_by_id, get_user_by_email, get_identity, has_identity_key, create_user, create_identity,
  set_user, save_user, set_identity, sync_user_profile, sync_identity_profile, touched, new_user,
  new_identity, answer_with, link_identity, link_new, upsert_local_user, authenticated_user,
  active_user, identity_user, linked, saved, link_created, link_to, sync_user, link_profile,
  known_or_new, not_provisioned,
}
use thryve_financial.Auth.Directory.Rows.{
  get_user-set_user, get_user_id, get_identity-set_identity, get_identity_key, get_user_by_email_id,
}

-- An upsert that gives the user with this id back.
abbrev pub IsOf : ℕ → Upsert → Type 0
IsOf i (upserted u is) = u.id ≡ i
IsOf i (refused e) = ⊥

module _ (provider : String) (visit : Visit) (p : ProviderUserProfile) (d : Directory) where
  -- An upsert that gives a user back leaves a directory in which the profile's identity is that
  -- user's, with the identities given back, as long as the user is active; one that is refused
  -- leaves the directory as it was.
  abbrev pub IsKnown : Upsert × Directory → Type 0
  IsKnown (refused e, next) = next ≡ d
  IsKnown (upserted u is, next) =
      authenticated_user provider p.issuer p.subject_id next
      ≡ (if u.is_active then some (u, is) else none)

  answer_with-IsKnown :
      (u : User) (users : List User) (i : AuthIdentityRecord) (is : List AuthIdentityRecord)
      → get_user_by_id u.id users ≡ some u
      → i.user_id ≡ u.id
      → get_identity provider p.issuer p.subject_id is ≡ some i
      → IsKnown (answer_with u users is)
  unfolding authenticated_user
  answer_with-IsKnown u users i is known owner found =
      let next : Directory = record { users = users; auth_identities = is } in
      ap (identity_user next) found
      ∙ ap (λ n. active_user next (get_user_by_id n users)) owner
      ∙ ap (active_user next) known

  touched_id : (mark : Bool) (u : User) → (touched mark p visit.now u).id ≡ u.id
  touched_id true u = refl
  touched_id false u = refl

  set_touched :
      (u : User) (users : List User)
      → is_some (get_user_by_id u.id users) ≡ true
      → let user = touched visit.mark_last_login p visit.now u in
        get_user_by_id user.id (set_user user users) ≡ some user
  set_touched u users known =
      let user = touched visit.mark_last_login p visit.now u in
      get_user-set_user user users
        (ap (λ n. is_some (get_user_by_id n users)) (touched_id visit.mark_last_login u) ∙ known)

  link_identity-IsKnown :
      (u : User) (users : List User)
      → is_some (get_user_by_id u.id users) ≡ true
      → IsKnown (link_identity visit provider p u users d)
  unfolding create_identity
  link_identity-IsKnown u users known = created (
      is_some (
        first
          (λ x. eqb x.id visit.new_identity_id || has_identity_key provider p.issuer p.subject_id x)
          d.auth_identities))
    where
      created :
          (clash : Bool)
          → IsKnown (
              linked
                (touched visit.mark_last_login p visit.now u)
                (set_user (touched visit.mark_last_login p visit.now u) users)
                d
                (if clash
                  then none
                  else some (new_identity visit provider p u ∷ d.auth_identities)))
      created true = refl
      created false =
          answer_with-IsKnown (touched visit.mark_last_login p visit.now u)
            (set_user (touched visit.mark_last_login p visit.now u) users)
            (new_identity visit provider p u) (new_identity visit provider p u ∷ d.auth_identities)
            (set_touched u users known) (sym (touched_id visit.mark_last_login u))
            (ground (arith, eq_refl provider, eq_refl p.issuer, eq_refl p.subject_id))

  link_created-IsKnown :
      (u : User) → IsKnown (link_created visit provider p u d (create_user u d.users))
  unfolding create_user
  link_created-IsKnown u =
      created (is_some (first (λ x. eqb x.id u.id || x.email == u.email) d.users))
    where
      created :
          (clash : Bool)
          → IsKnown (link_created visit provider p u d (if clash then none else some (u ∷ d.users)))
      created true = refl
      created false = link_identity-IsKnown u (u ∷ d.users) (ground arith)

  link_to-IsKnown :
      (email : String) (o : Option User)
      → get_user_by_email email d.users ≡ o
      → IsKnown (link_to visit provider p email d o)
  link_to-IsKnown email none found = link_created-IsKnown (new_user visit email p)
  link_to-IsKnown email (some u) found =
      let synced = sync_user_profile p u in
      link_identity-IsKnown synced (set_user synced d.users)
        (ap is_some (get_user-set_user synced d.users (get_user_by_email_id email d.users u found)))

  save_user-IsKnown :
      (u : User) (i : AuthIdentityRecord) (is : List AuthIdentityRecord)
      → is_some (get_user_by_id u.id d.users) ≡ true
      → i.user_id ≡ u.id
      → get_identity provider p.issuer p.subject_id is ≡ some i
      → IsKnown (saved u is d (save_user u d.users))
  unfolding save_user
  save_user-IsKnown u i is known owner found =
      stored (is_some (first (λ x. not (eqb x.id u.id) && x.email == u.email) d.users))
    where
      stored :
          (clash : Bool)
          → IsKnown (saved u is d (if clash then none else some (set_user u d.users)))
      stored true = refl
      stored false =
          answer_with-IsKnown u (set_user u d.users) i is (get_user-set_user u d.users known) owner
            found

  sync_user-IsKnown :
      (i : AuthIdentityRecord) (o : Option User)
      → get_identity provider p.issuer p.subject_id d.auth_identities ≡ some i
      → get_user_by_id i.user_id d.users ≡ o
      → IsKnown (sync_user visit p i d o)
  sync_user-IsKnown i none found owner = refl
  sync_user-IsKnown i (some u) found owner =
      let synced = sync_user_profile p u in
      let same = touched_id visit.mark_last_login synced in
      let mine : u.id ≡ i.user_id = get_user_id i.user_id d.users u owner in
      save_user-IsKnown (touched visit.mark_last_login p visit.now synced)
        (sync_identity_profile p i) (set_identity (sync_identity_profile p i) d.auth_identities)
        (ap (λ n. is_some (get_user_by_id n d.users)) (same ∙ mine) ∙ ap is_some owner)
        (sym (same ∙ mine))
        (get_identity-set_identity provider p.issuer p.subject_id i (sync_identity_profile p i)
          d.auth_identities refl
          (get_identity_key provider p.issuer p.subject_id d.auth_identities i found) found)

  link_profile-IsKnown : (email : Option String) → IsKnown (link_profile provider visit p d email)
  link_profile-IsKnown none = refl
  link_profile-IsKnown (some email) =
      elim (email == "")
        as (λ b.
          IsKnown (if b then (refused not_provisioned, d) else link_new visit provider p email d)) [
            | true ↦ refl
            | false ↦ link_to-IsKnown email (get_user_by_email email d.users) refl
          ]

  known_or_new-IsKnown :
      (o : Option AuthIdentityRecord)
      → get_identity provider p.issuer p.subject_id d.auth_identities ≡ o
      → IsKnown (known_or_new provider visit p d o)
  known_or_new-IsKnown none found = link_profile-IsKnown p.email
  known_or_new-IsKnown (some i) found =
      sync_user-IsKnown i (get_user_by_id i.user_id d.users) found refl

  -- After an upsert that gives a user back, the profile's identity authenticates that user, with
  -- the identities given back, if the user is active, and nobody if not; one that is refused
  -- leaves the directory as it was.
  pub upsert_local_user-IsKnown : IsKnown (upsert_local_user provider visit p d)
  unfolding upsert_local_user
  upsert_local_user-IsKnown =
      known_or_new-IsKnown (get_identity provider p.issuer p.subject_id d.auth_identities) refl
