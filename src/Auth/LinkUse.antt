-- ===== src/Auth/LinkUse.antt =====
-- backend/auth/service/registration_service.py: what the use of a link does.
use feature_frontend.Prelude.{
  ◌≡◌, ◌≤◌, refl, ap, ◌∙◌, sym, true, some, List, ltb, Bool-cases, Option-cases, inl, inr, keep_if,
  length,
}
use feature_frontend.Prelude.Text.{Text, text_eq, text_eq_refl, text_eq_iff}
use feature_frontend.Action.{HttpError, Result, ok, err, continue, bind-ok, invalid_link}
use feature_frontend.Auth.Database.{
  User, active, LinkRow, Tables, Database, session_scope, settle, get_user, set_user,
}
use feature_frontend.Auth.Outside.{Outside, Settings, Call}
use feature_frontend.Auth.Links.{validate_token, purge_tokens, is_unused}
use feature_frontend.Auth.LinkLaws.{validate_token-purged}
use feature_frontend.Auth.Search.{first_where-update_where, first_where-passes}
use feature_frontend.Auth.RefreshLaws.{opened}
use feature_frontend.Auth.Registration.{
  use_verification, complete_email_verification, change_verifications,
}
use feature_frontend.Auth.TwoFactor.{change_user}

module _ (outside : Outside) (settings : Settings) (call : Call) where
  abbrev pub confirmed : User → User
  confirmed u = record u { status = active; email_verified_at = some call.now }

  -- What a link that is used has been: open, of a known user, whose row is then changed.
  use_verification-ok :
      (row : LinkRow) (d after : Database)
      → use_verification outside settings call row d ≡ (ok tt, after)
      → (is_unused row ≡ true)
        × (ltb call.now row.expires_at ≡ true)
        × (user : User) × (get_user row.user_id d.now.users ≡ some user)
        × (change_verifications (purge_tokens user.id) (change_user user.id confirmed d) ≡ after)
  use_verification-ok row d after h = elim (Bool-cases (is_unused row)) [
    | inl unused ↦ elim (Bool-cases (ltb call.now row.expires_at)) [
      | inl early ↦ elim (Option-cases (get_user row.user_id d.now.users)) [
        | inl nobody ↦
            let failed : (use_verification outside settings call row d).0 ≡ err invalid_link =
              rw (unused, early, nobody) in
            let given = ap (λ x. x.0) h in absurd (cc)
        | inr (user, known) ↦
            let done : use_verification outside settings call row d ≡ (
              ok tt,
              change_verifications (purge_tokens user.id) (change_user user.id confirmed d),
            ) =
              rw (unused, early, known) in
            (unused, early, user, known, ap (λ x. x.1) (sym done ∙ h))
      ]
      | inr late ↦
          let failed : (use_verification outside settings call row d).0 ≡ err invalid_link =
            rw (unused, late) in
          let given = ap (λ x. x.0) h in absurd (cc)
    ]
    | inr used ↦
        let failed : (use_verification outside settings call row d).0 ≡ err invalid_link =
          rw used in
        let given = ap (λ x. x.0) h in absurd (cc)
  ]

  pub get_user-own :
      (id : Text) (users : List User) (user : User) → get_user id users ≡ some user → user.id ≡ id
  unfolding get_user
  get_user-own id users user known =
      (text_eq_iff user.id id).0 (first_where-passes (λ u. text_eq u.id id) users user known)

  complete_email_verification-refused :
      (token : Text) (d : Database)
      → validate_token outside settings token d.now.verifications ≡ err invalid_link
      → (complete_email_verification outside settings call token d).0 ≡ err invalid_link
  unfolding complete_email_verification
  complete_email_verification-refused token d h = rw h

-- A verification link is good for one use, within its time. When it is accepted, its user is found
-- active and with the address confirmed at the time of the call, and a next use of the link is
-- refused, where no two links have one id.
pub complete_email_verification-once :
    (outside : Outside) (settings : Settings) (call next : Call) (token : Text) (d after : Database)
    → ((id : Text) → length (keep_if (λ (r : LinkRow). text_eq r.id id) d.now.verifications) ≤ 1)
    → complete_email_verification outside settings call token d ≡ (ok tt, after)
    → (row : LinkRow) × (validate_token outside settings token d.now.verifications ≡ ok row)
      × (ltb call.now row.expires_at ≡ true)
      × (user : User) × (get_user row.user_id d.now.users ≡ some user)
      × (get_user row.user_id after.now.users ≡ some (confirmed outside settings call user))
      × ((complete_email_verification outside settings next token after).0 ≡ err invalid_link)
unfolding complete_email_verification set_user get_user
complete_email_verification-once outside settings call next token d after unique h =
    let (row, d1, valid, h1) =
      bind-ok (validate_token outside settings token d.now.verifications, d)
        (use_verification outside settings call) h in
    let start : d ≡ d1 = ap (λ x. x.1) valid in
    let (unused, early, user, known, done) =
      use_verification-ok outside settings call row d after
        (ap (use_verification outside settings call row) start ∙ h1) in
    let own = get_user-own outside settings call row.user_id d.now.users user known in
    let validated = ap (λ x. x.0) valid in
    let left : after.now.verifications ≡ purge_tokens row.user_id d.now.verifications =
      ap (λ x. x.now.verifications) (sym done)
      ∙ ap (λ id. purge_tokens id d.now.verifications) own in
    (
      row,
      validated,
      early,
      user,
      known,
      ap (λ x. get_user row.user_id x.now.users) (sym done)
          ∙ first_where-update_where (λ u. text_eq u.id row.user_id) (λ u. text_eq u.id user.id) _
              (λ u. refl) d.now.users user known (text_eq_refl user.id),
      complete_email_verification-refused outside settings next token after (
          ap (validate_token outside settings token) left
          ∙ validate_token-purged outside settings row d.now.verifications token validated
              (unique row.id)),
    )

-- What a request that raises leaves to the next is what was saved.
raised_now :
    {A : Type 0} {e : HttpError} (p : Result A × Database)
    → (settle p).0 ≡ err e
    → (settle p).1.now ≡ p.1.saved
raised_now (ok a, d) h = absurd (cc)
raised_now (err e, d) h = refl

module _ (outside : Outside) (settings : Settings) (call : Call) where
  use_verification-saved :
      (row : LinkRow) (d : Database)
      → (use_verification outside settings call row d).1.saved ≡ d.saved
  use_verification-saved row d = elim (Bool-cases (is_unused row)) [
    | inl unused ↦ elim (Option-cases (get_user row.user_id d.now.users)) [
      | inl nobody ↦ elim (Bool-cases (ltb call.now row.expires_at)) [
        | inl early ↦ rw (unused, early, nobody)
        | inr late ↦ rw (unused, late, nobody)
      ]
      | inr (user, known) ↦ elim (Bool-cases (ltb call.now row.expires_at)) [
        | inl early ↦ rw (unused, early, known)
        | inr late ↦ rw (unused, late, known)
      ]
    ]
    | inr used ↦ rw used
  ]

  verified-saved :
      (r : Result LinkRow) (d : Database)
      → (continue (r, d) (use_verification outside settings call)).1.saved ≡ d.saved
  verified-saved (ok row) d = use_verification-saved row d
  verified-saved (err e) d = refl

  -- A request in which a verification link is refused changes no table, since the request is rolled
  -- back: the links of a user whose link has expired are there as before.
  complete_email_verification-raised :
      (token : Text) (t : Tables) (e : HttpError)
      → (session_scope (complete_email_verification outside settings call token) (opened t)).0
        ≡ err e
      → (session_scope (complete_email_verification outside settings call token) (opened t)).1.now
        ≡ t
  unfolding session_scope complete_email_verification
  complete_email_verification-raised token t e h =
      raised_now
        (continue (validate_token outside settings token t.verifications, opened t)
          (use_verification outside settings call))
        h
      ∙ verified-saved (validate_token outside settings token t.verifications) (opened t)
