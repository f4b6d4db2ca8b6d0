-- ===== src/Auth/Directory/Uniqueness.antt =====
-- The users keep different ids and different emails.
use thryve_financial.Base.{
  ◌≡◌, refl, ◌∙◌, ap, String, Bool, true, false, Option, none, some, List, ◌∷◌, ◌==◌, first,
  is_some, arith, if◌then◌else◌,
}
use thryve_financial.Auth.Directory.{
  User, AuthIdentityRecord, ProviderUserProfile, Directory, Visit, refused, not_provisioned,
  get_user_by_id, get_user_by_email, get_identity, create_user, create_identity, set_user,
  save_user, set_identity, sync_user_profile, sync_identity_profile, touched, new_user,
  link_identity, link_new, link_created, link_to, saved, sync_user, link_profile, known_or_new,
  upsert_local_user,
}
use thryve_financial.Auth.Directory.Emails.{
  user_clash, AreDistinct, taken, first-All, set_user-AreDistinct, own_email, same_free,
  user_clash_free, set_free, found_email,
}

module _ (provider : String) (visit : Visit) (p : ProviderUserProfile) where
  abbrev touch : User → User
  touch u = touched visit.mark_last_login p visit.now u

  touch_same :
      (mark : Bool) (u : User)
      → ((touched mark p visit.now u).id ≡ u.id) × ((touched mark p visit.now u).email ≡ u.email)
  touch_same true u = (refl, refl)
  touch_same false u = (refl, refl)

  link_identity-AreDistinct :
      (u : User) (users : List User) (d : Directory)
      → AreDistinct users
      → AreDistinct d.users
      → is_some (first (taken u) users) ≡ false
      → AreDistinct (link_identity visit provider p u users d).1.users
  unfolding create_identity
  link_identity-AreDistinct u users d v w free =
      let same = touch_same visit.mark_last_login u in
      ground (
        arith,
        w,
        set_user-AreDistinct (touch u) users v (same_free (touch u) u users same.0 same.1 free),
      )

  link_created-AreDistinct :
      (u : User) (d : Directory)
      → AreDistinct d.users
      → AreDistinct (link_created visit provider p u d (create_user u d.users)).1.users
  unfolding create_user
  link_created-AreDistinct u d w = created (is_some (first (user_clash u) d.users)) refl
    where
      created :
          (known : Bool)
          → is_some (first (user_clash u) d.users) ≡ known
          → AreDistinct
              (link_created visit provider p u d
                (if known then none else some (u ∷ d.users))).1.users
      created true h = w
      created false h =
          link_identity-AreDistinct u (u ∷ d.users) d (first-All u d.users h, w) w
            (ground (arith, user_clash_free u d.users h))

  link_to-AreDistinct :
      (email : String) (d : Directory) (o : Option User)
      → AreDistinct d.users
      → p.email ≡ some email
      → get_user_by_email email d.users ≡ o
      → AreDistinct (link_to visit provider p email d o).1.users
  link_to-AreDistinct email d none w has found =
      link_created-AreDistinct (new_user visit email p) d w
  link_to-AreDistinct email d (some u) w has found =
      let synced = sync_user_profile p u in
      let own : u.email ≡ email = found_email email d.users u found in
      let kept : synced.email ≡ u.email = ground (arith, has, own) in
      let free =
        same_free synced u d.users refl kept
          (own_email u d.users w (ap (λ e. get_user_by_email e d.users) own ∙ found)) in
      link_identity-AreDistinct synced (set_user synced d.users) d
        (set_user-AreDistinct synced d.users w free) w (set_free synced d.users free)

  sync_user-AreDistinct :
      (i : AuthIdentityRecord) (d : Directory) (o : Option User)
      → AreDistinct d.users
      → AreDistinct (sync_user visit p i d o).1.users
  unfolding save_user
  sync_user-AreDistinct i d none w = w
  sync_user-AreDistinct i d (some u) w = stored (is_some (first (taken user) d.users)) refl
    where
      user : User
      user = touch (sync_user_profile p u)

      stored :
          (known : Bool)
          → is_some (first (taken user) d.users) ≡ known
          → AreDistinct
              (saved user
                (set_identity (sync_identity_profile p i) d.auth_identities)
                d
                (if known then none else some (set_user user d.users))).1.users
      stored true h = w
      stored false h = set_user-AreDistinct user d.users w h

  link_profile-AreDistinct :
      (d : Directory) (o : Option String)
      → AreDistinct d.users
      → p.email ≡ o
      → AreDistinct (link_profile provider visit p d o).1.users
  link_profile-AreDistinct d none w has = w
  link_profile-AreDistinct d (some email) w has =
      elim (email == "")
        as (λ b.
          AreDistinct
            (if b
              then (refused not_provisioned, d)
              else link_new visit provider p email d).1.users) [
                | true ↦ w
                | false ↦ link_to-AreDistinct email d (get_user_by_email email d.users) w has refl
              ]

  known_or_new-AreDistinct :
      (d : Directory) (o : Option AuthIdentityRecord)
      → AreDistinct d.users
      → AreDistinct (known_or_new provider visit p d o).1.users
  known_or_new-AreDistinct d none w = link_profile-AreDistinct d p.email w refl
  known_or_new-AreDistinct d (some i) w =
      sync_user-AreDistinct i d (get_user_by_id i.user_id d.users) w

  -- An upsert keeps the users' ids and emails different from each other, on every branch.
  pub upsert_local_user-AreDistinct :
      (d : Directory)
      → AreDistinct d.users
      → AreDistinct (upsert_local_user provider visit p d).1.users
  unfolding upsert_local_user
  upsert_local_user-AreDistinct d w =
      known_or_new-AreDistinct d (get_identity provider p.issuer p.subject_id d.auth_identities) w
