-- ===== src/Auth/LoginLaws.antt =====
-- backend/auth/service/auth_service.py: what a login that gives tokens has checked.
use feature_frontend.Prelude.{
  ◌≡◌, refl, ap, ◌∙◌, sym, true, false, Option, none, some, [], ◌∷◌, Bool-cases, inl, inr,
}
use feature_frontend.Prelude.Text.{Text, codes}
use feature_frontend.Action.{
  ok-injective, Result, ok, err, Action, ◌>>=◌, ◌>>◌, continue, bind-ok, bad_credentials,
}
use feature_frontend.Redis.{Redis}
use feature_frontend.Auth.Database.{User, UserStatus, active, unverified, disabled, find_user}
use feature_frontend.Auth.Outside.{Outside, Settings, Call}
use feature_frontend.Auth.Lockout.{clear_login_state, requires_captcha}
use feature_frontend.Auth.Sessions.{or_empty}
use feature_frontend.Auth.Refresh.{Tokens, write_audit}
use feature_frontend.Auth.World.{World, limit_rate, check_lock, check_captcha, solve_captcha}
use feature_frontend.Auth.Login.{
  LoginRequest, signed_in, requires_2fa, check_status, fail_login, start_challenge, login_known,
  login_confirmed, finish_login, check_password, admit, look_up, login_user,
}

-- An action that leaves the database alone, whatever it answers.
abbrev pub KeepsDb : {Store A : Type 0} → Action (World Store) A → Type 0
KeepsDb {Store} m = (w : World Store) → (m w).1.db ≡ w.db

module _ {Store A B : Type 0} where
  keeps-continue :
      (p : Result A × World Store) (f : A → Action (World Store) B)
      → ((a : A) → KeepsDb (f a))
      → (continue p f).1.db ≡ p.1.db
  keeps-continue (ok a, s) f keeps = keeps a s
  keeps-continue (err e, s) f keeps = refl

  keeps-bind :
      (m : Action (World Store) A) (f : A → Action (World Store) B)
      → KeepsDb m
      → ((a : A) → KeepsDb (f a))
      → KeepsDb (m >>= f)
  keeps-bind m f first rest w = keeps-continue (m w) f rest ∙ first w

module _ {Store : Type 0} (redis : Redis Store) (outside : Outside) (settings : Settings)
    (call : Call) where
  keeps-solve_captcha : (token : Option Text) → KeepsDb (solve_captcha redis outside call token)
  keeps-solve_captcha none w = refl
  keeps-solve_captcha (some []) w = refl
  keeps-solve_captcha (some (c ∷ token)) w = refl

  pub keeps-check_captcha :
      (token : Option Text) (email : Text) (user_id : Option Text)
      → KeepsDb (check_captcha redis outside call token email user_id)
  keeps-check_captcha token email user_id w =
      elim (Bool-cases (requires_captcha redis w.store email user_id)) [
        | inl needed ↦ rw needed (keeps-solve_captcha token w)
        | inr not_needed ↦ rw not_needed
      ]

  -- The checks before the look-up change only Redis.
  pub keeps-admit :
      (request : LoginRequest) (email : Text)
      → KeepsDb (admit redis outside settings call request email)
  keeps-admit request email =
      keeps-bind (limit_rate redis settings (codes "login:ip") (or_empty call.ip_address) 10 900) _
        (λ w. refl)
        (λ _.
          keeps-bind (limit_rate redis settings (codes "login:account") email 5 900) _ (λ w. refl)
            (λ _.
              keeps-bind (check_lock redis email none) _ (λ w. refl)
                (λ _. keeps-check_captcha request.captcha_token email none)))

  status-active :
      (s : UserStatus) (w : World Store) {u : Unit {0}} {v : World Store}
      → check_status s w ≡ (ok u, v)
      → s ≡ active
  status-active active w passed = refl
  status-active unverified w passed = absurd (cc)
  status-active disabled w passed = absurd (cc)

  fail_login-fails :
      (email : Text) (user_id : Option Text) (w : World Store)
      → (fail_login redis outside settings call email user_id w).0 ≡ err bad_credentials
  unfolding fail_login write_audit
  fail_login-fails email user_id w = refl

  -- A user with a second factor gets a challenge in place of tokens.
  challenged :
      (user : User)
      → user.mfa_enabled ≡ true
      → (w v : World Store) (tokens : Tokens)
      → ¬ (finish_login redis outside settings call user w ≡ (ok (signed_in tokens), v))
  unfolding start_challenge
  challenged user enrolled w v tokens h =
      let asked : (finish_login redis outside settings call user w).0
          ≡ ok (requires_2fa call.challenge_id) =
        rw enrolled in
      let given : (finish_login redis outside settings call user w).0 ≡ ok (signed_in tokens) =
        ap (λ x. x.0) h in
      cc

  known-signed_in :
      (request : LoginRequest) (email : Text) (user : User) (w v : World Store) (tokens : Tokens)
      → login_known redis outside settings call request email user w ≡ (ok (signed_in tokens), v)
      → (user.status ≡ active) × (user.mfa_enabled ≡ false)
  unfolding login_known
  known-signed_in request email user w v tokens h =
      let (_, w1, _, h1) =
        bind-ok (check_lock redis email (some user.id) w)
          (λ _.
            check_status user.status
            >> login_confirmed redis outside settings call request email user)
          h in
      let (_, w2, ready, h2) =
        bind-ok (check_status user.status w1)
          (λ _. login_confirmed redis outside settings call request email user) h1 in
      let (_, w3, _, h3) =
        bind-ok
          (check_captcha redis outside call request.captcha_token email (some user.id)
            (record w2 { store = clear_login_state redis email w2.store }))
          (λ _. finish_login redis outside settings call user) h2 in
      (
        status-active user.status w1 ready,
        elim (Bool-cases user.mfa_enabled) [
          | inl enrolled ↦ absurd (challenged user enrolled w3 v tokens h3)
          | inr plain ↦ plain
        ],
      )

  checked :
      (request : LoginRequest) (email : Text) (found : Option User) (w v : World Store)
      (tokens : Tokens)
      → check_password redis outside settings call request email found w
        ≡ (ok (signed_in tokens), v)
      → (user : User) × (found ≡ some user)
        × (outside.verify_password user.password_hash request.password ≡ true)
        × (user.status ≡ active)
        × (user.mfa_enabled ≡ false)
  checked request email none w v tokens h =
      let failed = fail_login-fails email none w in let given = ap (λ x. x.0) h in absurd (cc)
  checked request email (some user) w v tokens h =
      elim (Bool-cases (outside.verify_password user.password_hash request.password)) [
        | inl right ↦
            let go : login_known redis outside settings call request email user w
                ≡ (ok (signed_in tokens), v) =
              sym (rw right refl) ∙ h in
            let (is_active, plain) = known-signed_in request email user w v tokens go in
            (user, refl, right, is_active, plain)
        | inr wrong ↦
            let failed : (check_password redis outside settings call request email (some user) w).0
                ≡ err bad_credentials =
              rw wrong (fail_login-fails email (some user.id) w) in
            let given = ap (λ x. x.0) h in absurd (cc)
      ]

  -- A login is given tokens only when the address that the form names, in lower case, is that of a
  -- user whose password it has, who is active, and who has no second factor.
  pub login_user-signed_in :
      (request : LoginRequest) (w : World Store) (tokens : Tokens)
      → (login_user redis outside settings call request w).0 ≡ ok (signed_in tokens)
      → (user : User) × (find_user (outside.lower request.email) w.db.now.users ≡ some user)
        × (outside.verify_password user.password_hash request.password ≡ true)
        × (user.status ≡ active)
        × (user.mfa_enabled ≡ false)
  unfolding login_user
  login_user-signed_in request w tokens h =
      let email = outside.lower request.email in
      let start = admit redis outside settings call request email w in
      let (found, w1, looked, h1) =
        bind-ok
          ((admit redis outside settings call request email
              >> look_up redis outside settings call email)
            w)
          (check_password redis outside settings call request email)
          (ap (λ x. (x, (login_user redis outside settings call request w).1)) h) in
      let (_, w2, passed, h2) =
        bind-ok start (λ _. look_up redis outside settings call email) looked in
      let same : find_user email w2.db.now.users ≡ found = ok-injective (ap (λ x. x.0) h2) in
      let kept : w2.db ≡ w.db = ap (λ x. x.1.db) (sym passed) ∙ keeps-admit request email w in
      let (user, known, right, is_active, plain) = checked request email found w1 _ tokens h1 in
      (
        user,
        ap (λ d. find_user email d.now.users) (sym kept) ∙ same ∙ known,
        right,
        is_active,
        plain,
      )
