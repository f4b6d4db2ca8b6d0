-- ===== src/Auth/Directory/Refinement.antt =====
-- The directory as a map from identities to users.
use thryve_financial.Base.{
  ◌≡◌, refl, sym, ap, ◌∙◌, String, Bool, true, false, Option, none, some, List, ◌==◌, if◌then◌else◌,
}
use thryve_financial.Auth.Directory.{
  User, AuthIdentityRecord, ProviderUserProfile, Directory, Visit, Upsert, upserted, refused,
  get_user_by_id, get_user_by_email, get_identity, create_identity, set_identity, sync_user_profile,
  sync_identity_profile, touched, new_user, new_identity, link_identity, link_new,
  upsert_local_user, linked, saved, link_created, link_to, sync_user, link_profile, known_or_new,
  not_provisioned,
}
use thryve_financial.Auth.Directory.Rows.{get_user_id}
use thryve_financial.Auth.Directory.Keys.{
  are_keyed, owner, owner_of, updated, updated_same, found-agrees, owner-set_identity,
  set_identity-keyed, owner-create_identity, create_identity-keyed, own_key,
}

module _ (provider : String) (visit : Visit) (p : ProviderUserProfile) (d : Directory) where
  -- A call that gives a user back changes the map at the profile's identity alone, to that user; one
  -- that is refused changes nothing.
  abbrev pub Refines : Upsert × Directory → Type 0
  Refines (refused e, next) = next ≡ d
  Refines (upserted u is, next) =
      (are_keyed next.auth_identities ≡ true)
      × ((q r s : String)
          → owner next.auth_identities q r s
            ≡ updated (owner d.auth_identities) provider p.issuer p.subject_id u.id q r s)

  linked-Refines :
      (u v : User) (users : List User) (o : Option (List AuthIdentityRecord))
      → u.id ≡ v.id
      → are_keyed d.auth_identities ≡ true
      → create_identity (new_identity visit provider p u) d.auth_identities ≡ o
      → Refines (linked v users d o)
  linked-Refines u v users none same keyed created = refl
  linked-Refines u v users (some is) same keyed created = (
    create_identity-keyed _ d.auth_identities is created keyed,
    λ q r s.
        owner-create_identity _ d.auth_identities is q r s created
        ∙ ap (λ n. updated (owner d.auth_identities) provider p.issuer p.subject_id n q r s) same,
  )

  touched_same : (mark : Bool) (u : User) → u.id ≡ (touched mark p visit.now u).id
  touched_same true u = refl
  touched_same false u = refl

  module _ (keyed : are_keyed d.auth_identities ≡ true) where
    link_identity-Refines :
        (u : User) (users : List User) → Refines (link_identity visit provider p u users d)
    link_identity-Refines u users =
        linked-Refines u _ _ _ (touched_same visit.mark_last_login u) keyed refl

    link_created-Refines :
        (u : User) (o : Option (List User)) → Refines (link_created visit provider p u d o)
    link_created-Refines u none = refl
    link_created-Refines u (some users) = link_identity-Refines u users

    link_to-Refines :
        (email : String) (o : Option User) → Refines (link_to visit provider p email d o)
    link_to-Refines email (some u) = link_identity-Refines _ _
    link_to-Refines email none = link_created-Refines (new_user visit email p) _

    link_profile-Refines : (email : Option String) → Refines (link_profile provider visit p d email)
    link_profile-Refines none = refl
    link_profile-Refines (some email) = by_blank (email == "")
      where
        by_blank :
            (b : Bool)
            → Refines
                (if b then (refused not_provisioned, d) else link_new visit provider p email d)
        by_blank true = refl
        by_blank false = link_to-Refines email (get_user_by_email email d.users)

    saved-Refines :
        (i : AuthIdentityRecord) (u : User) (o : Option (List User))
        → get_identity provider p.issuer p.subject_id d.auth_identities ≡ some i
        → u.id ≡ i.user_id
        → Refines (saved u (set_identity (sync_identity_profile p i) d.auth_identities) d o)
    saved-Refines i u none found same = refl
    saved-Refines i u (some users) found same =
        let agree =
          found-agrees provider p.issuer p.subject_id i (sync_identity_profile p i)
            d.auth_identities keyed found refl refl (own_key i) in
        (
          set_identity-keyed _ d.auth_identities agree keyed,
          λ q r s.
              owner-set_identity _ d.auth_identities q r s agree
              ∙ sym (
                  updated_same (owner d.auth_identities) provider p.issuer p.subject_id u.id q r s
                    (ap owner_of found ∙ ap some (sym same))),
        )

    sync_user-Refines :
        (i : AuthIdentityRecord) (o : Option User)
        → get_identity provider p.issuer p.subject_id d.auth_identities ≡ some i
        → get_user_by_id i.user_id d.users ≡ o
        → Refines (sync_user visit p i d o)
    sync_user-Refines i none found owner_found = refl
    sync_user-Refines i (some u) found owner_found = saved-Refines i _ _ found (
        sym (touched_same visit.mark_last_login (sync_user_profile p u))
        ∙ get_user_id i.user_id d.users u owner_found)

    known_or_new-Refines :
        (o : Option AuthIdentityRecord)
        → get_identity provider p.issuer p.subject_id d.auth_identities ≡ o
        → Refines (known_or_new provider visit p d o)
    known_or_new-Refines none found = link_profile-Refines p.email
    known_or_new-Refines (some i) found =
        sync_user-Refines i (get_user_by_id i.user_id d.users) found refl

    -- The directory implements a map from identities, by provider, issuer and subject, to users: an
    -- upsert that gives a user back sets the profile's identity to that user and changes no other, and
    -- one that is refused changes nothing; no two identities ever share an id or a key, if none did.
    pub upsert_local_user-Refines : Refines (upsert_local_user provider visit p d)
    unfolding upsert_local_user
    upsert_local_user-Refines =
        known_or_new-Refines (get_identity provider p.issuer p.subject_id d.auth_identities) refl
