-- ===== src/Auth/TwoFactorLaws.antt =====
-- backend/auth/service/auth_service.py: a login challenge is good for one sign-in.
use feature_frontend.Prelude.{◌≡◌, refl, ap, ◌∙◌, sym, Option, none, some, Bool-cases, inl, inr}
use feature_frontend.Prelude.Text.{Text, codes, text_eq, text_eq_refl}
use feature_frontend.Action.{ok, err, ◌>>=◌, ◌>>◌, lift, bind-ok, invalid_challenge, invalid_code}
use feature_frontend.Redis.{Redis}
use feature_frontend.Auth.Database.{User, get_user}
use feature_frontend.Auth.Outside.{Outside, Settings, Call, Challenge, login, mfa_enable}
use feature_frontend.Auth.Lockout.{
  challenge_key, mfa_attempts_key, mfa_lock_key, mfa_captcha_key, clear_login_state,
  login_failure_key, login_lock_key, captcha_force_key,
}
use feature_frontend.Auth.Refresh.{Tokens, write_audit}
use feature_frontend.Auth.World.{World, check_lock, limit_rate, check_captcha}
use feature_frontend.Auth.TwoFactor.{
  TwoFaVerifyRequest, present, read_challenge, clear_mfa_state, fail_two_factor, pass_two_factor,
  check_totp, verify_user, verify_challenge, verify_two_factor,
}

module _ {Store : Type 0} (redis : Redis Store) where
  delete_keeps_none :
      (s : Store) (k j : Text) → redis.get s j ≡ none → redis.get (redis.delete s k) j ≡ none
  delete_keeps_none s k j gone = elim (Bool-cases (text_eq k j)) [
    | inl same ↦ redis.get-delete s k j ∙ rw same
    | inr other ↦ redis.get-delete s k j ∙ rw (other, gone)
  ]

  -- The sign-in deletes the challenge, and what it deletes after it does not bring it back.
  cleared_challenge :
      (outside : Outside) (settings : Settings) (call : Call) (id user_id email : Text) (s : Store)
      → redis.get
          (clear_login_state redis email (clear_mfa_state redis outside settings call id user_id s))
          (challenge_key id)
        ≡ none
  unfolding clear_login_state clear_mfa_state
  cleared_challenge outside settings call id user_id email s =
      let gone = redis.get-delete s (challenge_key id) (challenge_key id) ∙ rw (text_eq_refl id) in
      delete_keeps_none _ (captcha_force_key email) _ (
        delete_keeps_none _ (login_lock_key email) _ (
          delete_keeps_none _ (login_failure_key email) _ (
            delete_keeps_none _ (mfa_lock_key user_id) _ (
              delete_keeps_none _ (mfa_captcha_key user_id) _
                (delete_keeps_none _ (mfa_attempts_key user_id) _ gone)))))

module _ {Store : Type 0} (redis : Redis Store) (outside : Outside) (settings : Settings)
    (call : Call) where
  pass_two_factor-clears :
      (request : TwoFaVerifyRequest) (user : User) (ip ua : Option Text) (w : World Store)
      → redis.get
          (pass_two_factor redis outside settings call request user ip ua w).1.store
          (challenge_key request.challenge_id)
        ≡ none
  unfolding pass_two_factor
  pass_two_factor-clears request user ip ua w =
      cleared_challenge redis outside settings call request.challenge_id user.id user.email w.store

  fail_two_factor-fails :
      (user : User) (w : World Store)
      → (fail_two_factor redis outside settings call user w).0 ≡ err invalid_code
  unfolding fail_two_factor write_audit
  fail_two_factor-fails user w = refl

  -- What a sign-in leaves in Redis, from the check of the code back to the start of the handler.
  totp-clears :
      (request : TwoFaVerifyRequest) (user : User) (ip ua : Option Text) (raw : Text)
      (w v : World Store) (tokens : Tokens)
      → check_totp redis outside settings call request user ip ua raw w ≡ (ok tokens, v)
      → redis.get v.store (challenge_key request.challenge_id) ≡ none
  totp-clears request user ip ua raw w v tokens h =
      elim (Bool-cases (outside.verify_totp (outside.load_mfa_secret raw) request.otp)) [
        | inl right ↦
            let passed : pass_two_factor redis outside settings call request user ip ua w
                ≡ (ok tokens, v) =
              sym (rw right refl) ∙ h in
            ap (λ x. redis.get x.1.store (challenge_key request.challenge_id)) (sym passed)
            ∙ pass_two_factor-clears request user ip ua w
        | inr wrong ↦
            let failed : (check_totp redis outside settings call request user ip ua raw w).0
                ≡ err invalid_code =
              rw wrong (fail_two_factor-fails user w) in
            let given = ap (λ x. x.0) h in absurd (cc)
      ]

  user-clears :
      (request : TwoFaVerifyRequest) (ip ua : Option Text) (found : Option User) (w v : World Store)
      (tokens : Tokens)
      → verify_user redis outside settings call request ip ua found w ≡ (ok tokens, v)
      → redis.get v.store (challenge_key request.challenge_id) ≡ none
  user-clears request ip ua none w v tokens h = absurd (cc)
  user-clears request ip ua (some user) w v tokens h =
      let check = check_totp redis outside settings call request user ip ua in
      let with_secret = lift (present user.mfa_secret invalid_challenge) >>= check in
      let with_captcha =
        check_captcha redis outside call request.captcha_token user.email (some user.id)
        >> with_secret in
      let with_limit = limit_rate redis settings (codes "2fa") user.id 10 900 >> with_captcha in
      let (_, w1, _, h1) =
        bind-ok (check_lock redis user.email (some user.id) w) (λ _. with_limit) h in
      let (_, w2, _, h2) =
        bind-ok (limit_rate redis settings (codes "2fa") user.id 10 900 w1) (λ _. with_captcha)
          h1 in
      let (_, w3, _, h3) =
        bind-ok
          (check_captcha redis outside call request.captcha_token user.email (some user.id) w2)
          (λ _. with_secret) h2 in
      let (raw, w4, _, h4) =
        bind-ok (lift (present user.mfa_secret invalid_challenge) w3) check h3 in
      totp-clears request user ip ua raw w4 v tokens h4

  challenge-clears :
      (request : TwoFaVerifyRequest) (challenge : Challenge) (w v : World Store) (tokens : Tokens)
      → verify_challenge redis outside settings call request challenge w ≡ (ok tokens, v)
      → redis.get v.store (challenge_key request.challenge_id) ≡ none
  challenge-clears request (mfa_enable user_id secret) w v tokens h = absurd (cc)
  challenge-clears request (login user_id ip ua) w v tokens h =
      user-clears request ip ua (get_user user_id w.db.now.users) w v tokens h

  verify-clears :
      (request : TwoFaVerifyRequest) (w : World Store) (tokens : Tokens)
      → (verify_two_factor redis outside settings call request w).0 ≡ ok tokens
      → redis.get
          (verify_two_factor redis outside settings call request w).1.store
          (challenge_key request.challenge_id)
        ≡ none
  unfolding verify_two_factor
  verify-clears request w tokens h =
      let (challenge, w1, _, h1) =
        bind-ok (read_challenge redis outside settings call request.challenge_id w)
          (verify_challenge redis outside settings call request)
          (ap (λ x. (x, (verify_two_factor redis outside settings call request w).1)) h) in
      challenge-clears request challenge w1 _ tokens h1

  verify-absent :
      (request : TwoFaVerifyRequest) (w : World Store)
      → redis.get w.store (challenge_key request.challenge_id) ≡ none
      → (verify_two_factor redis outside settings call request w).0 ≡ err invalid_challenge
  unfolding verify_two_factor read_challenge
  verify-absent request w absent = rw absent

-- A challenge is good for one sign-in: after a request that was given tokens, a request that names
-- the same challenge, with whatever code and by whatever client, is answered that it is invalid.
pub verify_two_factor-once :
    {Store : Type 0} (redis : Redis Store) (outside : Outside) (settings : Settings)
    (call next : Call) (request again : TwoFaVerifyRequest) (w : World Store) (tokens : Tokens)
    → again.challenge_id ≡ request.challenge_id
    → (verify_two_factor redis outside settings call request w).0 ≡ ok tokens
    → (verify_two_factor redis outside settings next again
        (verify_two_factor redis outside settings call request w).1).0
      ≡ err invalid_challenge
verify_two_factor-once redis outside settings call next request again w tokens same h =
    verify-absent redis outside settings next again _
      (rw same (verify-clears redis outside settings call request w tokens h))
