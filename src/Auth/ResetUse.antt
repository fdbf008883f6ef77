-- ===== src/Auth/ResetUse.antt =====
-- backend/auth/service/password_reset_service.py: what the use of a link does.
use feature_frontend.Prelude.{
  ◌≡◌, ◌≤◌, refl, ap, ◌∙◌, sym, true, some, ltb, Bool-cases, Option-cases, inl, inr, keep_if,
  length,
}
use feature_frontend.Prelude.Text.{Text, text_eq, text_eq_refl}
use feature_frontend.Action.{ok, err, bind-ok, invalid_link}
use feature_frontend.Auth.Database.{User, LinkRow, Database, get_user, set_user}
use feature_frontend.Auth.Outside.{Outside, Settings, Call}
use feature_frontend.Auth.Links.{validate_token, purge_tokens, is_unused}
use feature_frontend.Auth.LinkUse.{get_user-own}
use feature_frontend.Auth.LinkLaws.{validate_token-purged}
use feature_frontend.Auth.Search.{first_where-update_where}
use feature_frontend.Auth.TwoFactor.{change_user}
use feature_frontend.Auth.PasswordReset.{use_reset, complete_password_reset, change_resets}

module _ (outside : Outside) (settings : Settings) (call : Call) where
  abbrev pub with_password : Text → User → User
  with_password new_password u = record u { password_hash = outside.hash_password new_password }

  -- What a link that is used has been: open, of a known user, whose row is then changed.
  use_reset-ok :
      (new_password : Text) (row : LinkRow) (d after : Database)
      → use_reset outside settings call new_password row d ≡ (ok tt, after)
      → (is_unused row ≡ true)
        × (ltb call.now row.expires_at ≡ true)
        × (user : User) × (get_user row.user_id d.now.users ≡ some user)
        × (change_resets (purge_tokens user.id) (change_user user.id (with_password new_password) d)
            ≡ after)
  use_reset-ok new_password row d after h = elim (Bool-cases (is_unused row)) [
    | inl unused ↦ elim (Bool-cases (ltb call.now row.expires_at)) [
      | inl early ↦ elim (Option-cases (get_user row.user_id d.now.users)) [
        | inl nobody ↦
            let failed : (use_reset outside settings call new_password row d).0 ≡ err invalid_link =
              rw (unused, early, nobody) in
            let given = ap (λ x. x.0) h in absurd (cc)
        | inr (user, known) ↦
            let done : use_reset outside settings call new_password row d ≡ (
              ok tt,
              change_resets (purge_tokens user.id)
                  (change_user user.id (with_password new_password) d),
            ) =
              rw (unused, early, known) in
            (unused, early, user, known, ap (λ x. x.1) (sym done ∙ h))
      ]
      | inr late ↦
          let failed : (use_reset outside settings call new_password row d).0 ≡ err invalid_link =
            rw (unused, late) in
          let given = ap (λ x. x.0) h in absurd (cc)
    ]
    | inr used ↦
        let failed : (use_reset outside settings call new_password row d).0 ≡ err invalid_link =
          rw used in
        let given = ap (λ x. x.0) h in absurd (cc)
  ]

  complete_password_reset-refused :
      (token new_password : Text) (d : Database)
      → validate_token outside settings token d.now.resets ≡ err invalid_link
      → (complete_password_reset outside settings call token new_password d).0 ≡ err invalid_link
  unfolding complete_password_reset
  complete_password_reset-refused token new_password d h = rw h

-- A reset link is good for one use, within its time. When it is accepted, its user is found with
-- the hash of the new password, and a next use of the link is refused, whatever the password, where
-- no two links have one id.
pub complete_password_reset-once :
    (outside : Outside) (settings : Settings) (call next : Call)
    (token new_password next_password : Text) (d after : Database)
    → ((id : Text) → length (keep_if (λ (r : LinkRow). text_eq r.id id) d.now.resets) ≤ 1)
    → complete_password_reset outside settings call token new_password d ≡ (ok tt, after)
    → (row : LinkRow) × (validate_token outside settings token d.now.resets ≡ ok row)
      × (ltb call.now row.expires_at ≡ true)
      × (user : User) × (get_user row.user_id d.now.users ≡ some user)
      × (get_user row.user_id after.now.users
          ≡ some (with_password outside settings call new_password user))
      × ((complete_password_reset outside settings next token next_password after).0
          ≡ err invalid_link)
unfolding complete_password_reset set_user get_user
complete_password_reset-once outside settings call next token new_password next_password d after
      unique h =
    let (row, d1, valid, h1) =
      bind-ok (validate_token outside settings token d.now.resets, d)
        (use_reset outside settings call new_password) h in
    let start : d ≡ d1 = ap (λ x. x.1) valid in
    let (unused, early, user, known, done) =
      use_reset-ok outside settings call new_password row d after
        (ap (use_reset outside settings call new_password row) start ∙ h1) in
    let own = get_user-own outside settings call row.user_id d.now.users user known in
    let validated = ap (λ x. x.0) valid in
    let left : after.now.resets ≡ purge_tokens row.user_id d.now.resets =
      ap (λ x. x.now.resets) (sym done) ∙ ap (λ id. purge_tokens id d.now.resets) own in
    (
      row,
      validated,
      early,
      user,
      known,
      ap (λ x. get_user row.user_id x.now.users) (sym done)
          ∙ first_where-update_where (λ u. text_eq u.id row.user_id) (λ u. text_eq u.id user.id) _
              (λ u. refl) d.now.users user known (text_eq_refl user.id),
      complete_password_reset-refused outside settings next token next_password after (
          ap (validate_token outside settings token) left
          ∙ validate_token-purged outside settings row d.now.resets token validated
              (unique row.id)),
    )
