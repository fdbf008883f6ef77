-- ===== src/Auth/LinkTests.antt =====
-- backend/auth on sample requests: links.
use feature_frontend.Prelude.{
  Bool-cases, inl, inr, ◌≡◌, ◌≤◌, refl, true, some, [], ◌∷◌, ltb, length, keep_if, arith,
}
use feature_frontend.Prelude.Text.{Text, codes, text_eq}
use feature_frontend.Action.{ok, err, invalid_link}
use feature_frontend.Auth.Database.{User, LinkRow, Database, session_scope, get_user}
use feature_frontend.Auth.Outside.{Call}
use feature_frontend.Auth.Sessions.{split_dots}
use feature_frontend.Auth.RefreshLaws.{opened}
use feature_frontend.Auth.Links.{validate_token}
use feature_frontend.Auth.Registration.{complete_email_verification}
use feature_frontend.Auth.LinkUse.{confirmed, complete_email_verification-once}
use feature_frontend.Auth.PasswordReset.{complete_password_reset}
use feature_frontend.Auth.ResetUse.{with_password, complete_password_reset-once}
use feature_frontend.Auth.Samples.{
  sample_outside, sample_settings, sample_call, alice_link, sample_tables,
}

abbrev verified_tables : Database
verified_tables =
    (complete_email_verification sample_outside sample_settings sample_call (codes "l1.kl1")
      (opened sample_tables)).1

verifies :
    complete_email_verification sample_outside sample_settings sample_call
      (codes "l1.kl1")
      (opened sample_tables)
    ≡ (ok tt, verified_tables)
unfolding complete_email_verification validate_token split_dots get_user
verifies = refl

one_link : (id : Text) → length (keep_if (λ (r : LinkRow). text_eq r.id id) (alice_link ∷ [])) ≤ 1
one_link id = elim (Bool-cases (text_eq (codes "l1") id)) [
  | inl this ↦ rw this (omega arith)
  | inr other ↦ rw other (omega arith)
]

complete_email_verification-once_example :
    (row : LinkRow) × (validate_token sample_outside sample_settings
        (codes "l1.kl1")
        (alice_link ∷ [])
      ≡ ok row)
    × (ltb 100 row.expires_at ≡ true)
    × (user : User) × (get_user row.user_id sample_tables.users ≡ some user)
    × (get_user row.user_id verified_tables.now.users
        ≡ some (confirmed sample_outside sample_settings sample_call user))
    × ((complete_email_verification sample_outside sample_settings sample_call
          (codes "l1.kl1")
          verified_tables).0
        ≡ err invalid_link)
complete_email_verification-once_example =
    complete_email_verification-once sample_outside sample_settings sample_call sample_call
      (codes "l1.kl1") (opened sample_tables) verified_tables one_link verifies

abbrev late_call : Call
late_call = record sample_call { now = 2000 }

lapsed :
    (session_scope
      (complete_email_verification sample_outside sample_settings late_call (codes "l1.kl1"))
      (opened sample_tables)).0
    ≡ err invalid_link
unfolding complete_email_verification session_scope validate_token split_dots
lapsed = refl

abbrev reset_tables : Database
reset_tables =
    (complete_password_reset sample_outside sample_settings sample_call (codes "l1.kl1")
      (codes "pw2") (opened sample_tables)).1

resets :
    complete_password_reset sample_outside sample_settings sample_call
      (codes "l1.kl1")
      (codes "pw2")
      (opened sample_tables)
    ≡ (ok tt, reset_tables)
unfolding complete_password_reset validate_token split_dots get_user
resets = refl

complete_password_reset-once_example :
    (row : LinkRow) × (validate_token sample_outside sample_settings
        (codes "l1.kl1")
        (alice_link ∷ [])
      ≡ ok row)
    × (ltb 100 row.expires_at ≡ true)
    × (user : User) × (get_user row.user_id sample_tables.users ≡ some user)
    × (get_user row.user_id reset_tables.now.users
        ≡ some (with_password sample_outside sample_settings sample_call (codes "pw2") user))
    × ((complete_password_reset sample_outside sample_settings sample_call
          (codes "l1.kl1")
          (codes "pw3")
          reset_tables).0
        ≡ err invalid_link)
complete_password_reset-once_example =
    complete_password_reset-once sample_outside sample_settings sample_call sample_call
      (codes "l1.kl1") (codes "pw2") (codes "pw3") (opened sample_tables) reset_tables one_link
      resets
