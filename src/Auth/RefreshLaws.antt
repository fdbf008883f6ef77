-- ===== src/Auth/RefreshLaws.antt =====
-- backend/auth/service/auth_service.py: a refresh token is good for one refresh.
use feature_frontend.Prelude.{
  ℕ, ◌≡◌, refl, ap, ◌∙◌, ◌⊎◌, true, false, ◌&&◌, none, some, ◌∷◌, ltb, Bool-cases, Option-cases,
  inl, inr, ◌≤◌, length, keep_if,
}
use feature_frontend.Prelude.Text.{Text, text_eq, text_eq_refl}
use feature_frontend.Action.{ok, err, no_permission}
use feature_frontend.Auth.Database.{SessionRow, User, Tables, Database, session_scope, commit}
use feature_frontend.Auth.Outside.{Outside, Settings, Call}
use feature_frontend.Auth.Sessions.{
  hash_token, by_hash, find_session_by_refresh, is_live, change_session, revoke_session,
  rotate_session_refresh, validate_session_bindings,
}
use feature_frontend.Auth.Search.{first_where-update_where, first_where-lost}
use feature_frontend.Auth.Refresh.{
  Tokens, refuse_session, rotate, is_usable, subject, refresh_session, refresh_tokens, write_audit,
}

-- What a request sees first: the tables as they were saved.
abbrev pub opened : Tables → Database
opened t = record { now = t; saved = t }

module _ (outside : Outside) (settings : Settings) (call : Call) where
  pub refresh_tokens-absent :
      (c : ℕ) (token : Text) (d : Database)
      → by_hash (outside.sha256_hex (c ∷ token)) d.now.sessions ≡ none
      → refresh_tokens outside settings call (c ∷ token) d ≡ (err no_permission, d)
  unfolding refresh_tokens find_session_by_refresh hash_token
  refresh_tokens-absent c token d absent = rw absent

  pub refresh_tokens-found :
      (c : ℕ) (token : Text) (d : Database) (r : SessionRow)
      → by_hash (outside.sha256_hex (c ∷ token)) d.now.sessions ≡ some r
      → refresh_tokens outside settings call (c ∷ token) d
        ≡ refresh_session outside settings call (c ∷ token) (some r) d
  unfolding refresh_tokens find_session_by_refresh hash_token
  refresh_tokens-found c token d r found = rw found

  pub refuse_session-live :
      (r : SessionRow) (d : Database)
      → is_live r ≡ true
      → refuse_session call r {A = Tokens} d ≡ (
        err no_permission,
        commit (change_session r (λ x. record x { revoked_at = some call.now }) d),
      )
  unfolding refuse_session revoke_session
  refuse_session-live r d live = rw live

  -- A live session is refused, or its tokens are changed.
  pub refresh_session-cases :
      (token : Text) (r : SessionRow) (d : Database)
      → is_live r ≡ true
      → (refresh_session outside settings call token (some r) d ≡ refuse_session call r d)
        ⊎ ((is_usable outside settings call r ≡ true)
            × (user : User) × (subject (outside.decode token) d.now.users ≡ some user)
            × (refresh_session outside settings call token (some r) d
                ≡ rotate outside settings call r user d))
  refresh_session-cases token r d live = elim (Bool-cases (is_usable outside settings call r)) [
    | inl usable ↦ elim (Option-cases (subject (outside.decode token) d.now.users)) [
      | inl nobody ↦ inl (rw (live, usable) (rw nobody refl))
      | inr (user, known) ↦ inr (usable, user, known, rw (live, usable) (rw known refl))
    ]
    | inr unusable ↦ inl (rw (live, unusable))
  ]

-- The row that a search by hash finds after the session found before was revoked.
pub revoked_found :
    (call : Call) (hashed : Text) (r : SessionRow) (d : Database)
    → by_hash hashed d.now.sessions ≡ some r
    → by_hash hashed
        (change_session r (λ x. record x { revoked_at = some call.now }) d).now.sessions
      ≡ some (record r { revoked_at = some call.now })
unfolding by_hash
revoked_found call hashed r d found =
    first_where-update_where (λ x. text_eq x.refresh_token_hash hashed) (λ x. text_eq x.id r.id)
      (λ x. record x { revoked_at = some call.now }) (λ x. refl) d.now.sessions r found
      (text_eq_refl r.id)

module _ (outside : Outside) (settings : Settings) (call next : Call) (c : ℕ) (token : Text) where
  abbrev hashed : Text
  hashed = outside.sha256_hex (c ∷ token)

  -- A session that has been revoked gives no tokens.
  refresh_tokens-revoked :
      (d : Database) (r : SessionRow)
      → by_hash hashed d.now.sessions ≡ some r
      → is_live r ≡ false
      → (refresh_tokens outside settings next (c ∷ token) d) ≡ (err no_permission, d)
  refresh_tokens-revoked d r found dead =
      refresh_tokens-found outside settings next c token d r found ∙ rw dead

  after_revoked :
      (t : Tables) (r : SessionRow)
      → by_hash hashed t.sessions ≡ some r
      → is_live r ≡ false
      → (refresh_tokens outside settings next
          (c ∷ token)
          (session_scope (refresh_tokens outside settings call (c ∷ token)) (opened t)).1).0
        ≡ err no_permission
  unfolding session_scope
  after_revoked t r found dead =
      rw (refresh_tokens-found outside settings call c token (opened t) r found, dead)
        (ap (λ x. x.0) (refresh_tokens-revoked _ r found dead))

  after_refusal :
      (t : Tables) (r : SessionRow)
      → by_hash hashed t.sessions ≡ some r
      → is_live r ≡ true
      → refresh_tokens outside settings call (c ∷ token) (opened t)
        ≡ refuse_session call r (opened t)
      → (refresh_tokens outside settings next
          (c ∷ token)
          (session_scope (refresh_tokens outside settings call (c ∷ token)) (opened t)).1).0
        ≡ err no_permission
  unfolding session_scope
  after_refusal t r found live refused =
      let done = refused ∙ refuse_session-live outside settings call r (opened t) live in
      rw done (
        ap (λ x. x.0)
          (refresh_tokens-revoked _ _ (revoked_found call hashed r (opened t) found) refl))

  -- No session has the token any more, once its session has been given another.
  after_rotation :
      (t : Tables) (r : SessionRow) (user : User) (new_hash : Text)
      → hash_token outside call.refresh_token ≡ ok new_hash
      → text_eq new_hash hashed ≡ false
      → length (keep_if (λ x. text_eq x.refresh_token_hash hashed) t.sessions) ≤ 1
      → by_hash hashed t.sessions ≡ some r
      → refresh_tokens outside settings call (c ∷ token) (opened t)
        ≡ rotate outside settings call r user (opened t)
      → (refresh_tokens outside settings next
          (c ∷ token)
          (session_scope (refresh_tokens outside settings call (c ∷ token)) (opened t)).1).0
        ≡ err no_permission
  unfolding session_scope rotate rotate_session_refresh write_audit by_hash
  after_rotation t r user new_hash drawn fresh few found granted = rw granted (
      rw drawn (
        ap (λ x. x.0)
          (refresh_tokens-absent outside settings next c token _ (
            first_where-lost (λ x. text_eq x.refresh_token_hash hashed) (λ x. text_eq x.id r.id) _
              t.sessions r (λ x. fresh) few found (text_eq_refl r.id)))))

  after_absent :
      (t : Tables)
      → by_hash hashed t.sessions ≡ none
      → (refresh_tokens outside settings next
          (c ∷ token)
          (session_scope (refresh_tokens outside settings call (c ∷ token)) (opened t)).1).0
        ≡ err no_permission
  unfolding session_scope
  after_absent t absent =
      rw (refresh_tokens-absent outside settings call c token (opened t) absent)
        (ap (λ x. x.0) (refresh_tokens-absent outside settings next c token _ absent))

  -- A refresh token is good for at most one refresh. A request with it, granted or refused, by
  -- whatever client, committed or rolled back as it ends, makes every next request with it refused
  -- with "no permission"; this is so when the token is not empty, no two sessions have its hash,
  -- and the new token that the request may draw has a hash, which differs from the old one's.
  pub refresh_tokens-once :
      (t : Tables) (new_hash : Text)
      → hash_token outside call.refresh_token ≡ ok new_hash
      → text_eq new_hash hashed ≡ false
      → length (keep_if (λ x. text_eq x.refresh_token_hash hashed) t.sessions) ≤ 1
      → (refresh_tokens outside settings next
          (c ∷ token)
          (session_scope (refresh_tokens outside settings call (c ∷ token)) (opened t)).1).0
        ≡ err no_permission
  refresh_tokens-once t new_hash drawn fresh few = elim (Option-cases (by_hash hashed t.sessions)) [
    | inl absent ↦ after_absent t absent
    | inr (r, found) ↦ elim (Bool-cases (is_live r)) [
      | inl live ↦
          elim (refresh_session-cases outside settings call (c ∷ token) r (opened t) live) [
            | inl refused ↦
                after_refusal t r found live
                  (refresh_tokens-found outside settings call c token (opened t) r found ∙ refused)
            | inr (usable, user, known, granted) ↦
                after_rotation t r user new_hash drawn fresh few found
                  (refresh_tokens-found outside settings call c token (opened t) r found ∙ granted)
          ]
      | inr dead ↦ after_revoked t r found dead
    ]
  ]

-- A request that is given tokens came with the token of a session that is live, has not expired and
-- is bound to the caller, and the token decodes as a refresh token of a known user.
pub refresh_tokens-granted :
    (outside : Outside) (settings : Settings) (call : Call) (c : ℕ) (token : Text) (d : Database)
    (tokens : Tokens)
    → (refresh_tokens outside settings call (c ∷ token) d).0 ≡ ok tokens
    → (r : SessionRow) × (by_hash (outside.sha256_hex (c ∷ token)) d.now.sessions ≡ some r)
      × (is_live r ≡ true)
      × ((ltb call.now r.expires_at
            && validate_session_bindings outside r call.user_agent call.ip_address)
          ≡ true)
      × (user : User) × (subject (outside.decode (c ∷ token)) d.now.users ≡ some user)
refresh_tokens-granted outside settings call c token d tokens granted =
    elim (Option-cases (by_hash (outside.sha256_hex (c ∷ token)) d.now.sessions)) [
      | inl absent ↦
          let refused =
            ap (λ x. x.0) (refresh_tokens-absent outside settings call c token d absent) in
          absurd (cc)
      | inr (r, found) ↦
          let now = refresh_tokens-found outside settings call c token d r found in
          elim (Bool-cases (is_live r)) [
            | inl live ↦ elim (refresh_session-cases outside settings call (c ∷ token) r d live) [
              | inl denied ↦
                  let refused =
                    ap (λ x. x.0)
                      (now ∙ denied ∙ refuse_session-live outside settings call r d live) in
                  absurd (cc)
              | inr (usable, user, known, _) ↦ (r, found, live, usable, user, known)
            ]
            | inr dead ↦
                let refused : (refresh_tokens outside settings call (c ∷ token) d).0
                    ≡ err no_permission =
                  ap (λ x. x.0) now ∙ rw dead in
                absurd (cc)
          ]
    ]
