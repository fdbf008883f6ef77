-- ===== src/Auth/LoginFailures.antt =====
-- backend/auth/service/auth_service.py: what a login that fails leaves.
use feature_frontend.Prelude.{
  ◌≡◌, refl, ap, ◌∙◌, sym, Bool, true, false, not, arith, Option, none, some,
}
use feature_frontend.Prelude.Text.{Text}
use feature_frontend.Action.{Result, ok, err, bad_credentials}
use feature_frontend.Redis.{Redis}
use feature_frontend.Auth.Database.{User, find_user}
use feature_frontend.Auth.Outside.{Outside, Settings, Call}
use feature_frontend.Auth.Lockout.{record_login_failure}
use feature_frontend.Auth.Refresh.{write_audit}
use feature_frontend.Auth.World.{World}
use feature_frontend.Auth.Login.{
  LoginRequest, LoginResponse, fail_login, check_password, admit, login_user,
}
use feature_frontend.Auth.LoginLaws.{keeps-admit}

-- Whether a login names no user, or has not the user's password.
abbrev pub is_wrong : Outside → Text → Option User → Bool
is_wrong outside password none = true
is_wrong outside password (some user) = not (outside.verify_password user.password_hash password)

module _ {Store : Type 0} (redis : Redis Store) (outside : Outside) (settings : Settings)
    (call : Call) where
  -- What a failed login leaves: the failure counted, and the users and sessions saved as they were.
  abbrev Refused :
      (request : LoginRequest) → (w : World Store) → Result LoginResponse × World Store → Type 0
  Refused request w p =
      (p.0 ≡ err bad_credentials)
      × (p.1.store ≡ record_login_failure redis (outside.lower request.email) w.store)
      × (p.1.db.saved.users ≡ w.db.now.users)
      × (p.1.db.saved.sessions ≡ w.db.now.sessions)

  fail_login-Refused :
      (request : LoginRequest) (user_id : Option Text) (w : World Store)
      → Refused request w
          (fail_login redis outside settings call (outside.lower request.email) user_id w)
  unfolding fail_login write_audit
  fail_login-Refused request user_id w = (refl, refl, refl, refl)

  wrong-Refused :
      (request : LoginRequest) (found : Option User) (w : World Store)
      → is_wrong outside request.password found ≡ true
      → Refused request w
          (check_password redis outside settings call request (outside.lower request.email) found w)
  wrong-Refused request none w wrong = fail_login-Refused request none w
  wrong-Refused request (some user) w wrong =
      let no_match : outside.verify_password user.password_hash request.password ≡ false =
        ground arith in
      rw no_match (fail_login-Refused request (some user.id) w)

  -- A login that passes the checks before the look-up is answered the same whether it names no user
  -- or has a wrong password, and does the same to Redis: the failure of the address is counted. The
  -- users and the sessions are saved as they were.
  pub login_user-wrong :
      (request : LoginRequest) (w v : World Store)
      → admit redis outside settings call request (outside.lower request.email) w ≡ (ok tt, v)
      → is_wrong outside request.password (find_user (outside.lower request.email) w.db.now.users)
        ≡ true
      → ((login_user redis outside settings call request w).0 ≡ err bad_credentials)
        × ((login_user redis outside settings call request w).1.store
            ≡ record_login_failure redis (outside.lower request.email) v.store)
        × ((login_user redis outside settings call request w).1.db.saved.users ≡ w.db.now.users)
        × ((login_user redis outside settings call request w).1.db.saved.sessions
            ≡ w.db.now.sessions)
  unfolding login_user
  login_user-wrong request w v admitted wrong =
      let email = outside.lower request.email in
      let kept : v.db ≡ w.db =
        ap (λ x. x.1.db) (sym admitted) ∙ keeps-admit redis outside settings call request email w in
      let step : login_user redis outside settings call request w
          ≡ check_password redis outside settings call request email
              (find_user email v.db.now.users) v =
        rw admitted in
      let (answer, counted, users, sessions) =
        wrong-Refused request (find_user email v.db.now.users) v (
          ap (λ d. is_wrong outside request.password (find_user email d.now.users)) kept ∙ wrong) in
      (
        ap (λ x. x.0) step ∙ answer,
        ap (λ x. x.1.store) step ∙ counted,
        ap (λ x. x.1.db.saved.users) step ∙ users ∙ ap (λ d. d.now.users) kept,
        ap (λ x. x.1.db.saved.sessions) step ∙ sessions ∙ ap (λ d. d.now.sessions) kept,
      )
