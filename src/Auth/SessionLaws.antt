-- ===== src/Auth/SessionLaws.antt =====
-- backend/auth/service/session_service.py: bindings, and the sessions that a sign-out ends.
use feature_frontend.Prelude.{
  ℕ, zero, suc, ◌+◌, ◌≡◌, refl, ap, ◌∙◌, sym, Bool, true, false, ◌&&◌, not, Option, some, List, [],
  ◌∷◌, arith, leb, Bool-cases, inl, inr, take, length, keep_if,
}
use feature_frontend.Prelude.Text.{Text, text_eq, text_eq_refl}
use feature_frontend.Action.{ok}
use feature_frontend.Auth.Database.{SessionRow, Database, update_where}
use feature_frontend.Auth.Outside.{Outside, Settings, Call}
use feature_frontend.Auth.Sessions.{
  new_session, validate_session_bindings, clip_user_agent, normalize_ip, or_empty, is_live,
  is_revocable, is_other, revoke_other_sessions,
}

-- A text equals its first characters exactly when it has no more than those.
text_eq-take : (n : ℕ) (s : Text) → text_eq (take n s) s ≡ leb (length s) n
text_eq-take zero [] = ground arith
text_eq-take zero (c ∷ s) = ground arith
text_eq-take (suc n) [] = ground arith
text_eq-take (suc n) (c ∷ s) = ground (arith, text_eq-take n s)

and_true : (b : Bool) → (b && true) ≡ b
and_true true = refl
and_true false = refl

-- A session that a client has just opened accepts that client, from the same address and with the
-- same user agent, exactly when the user agent has at most 512 characters.
pub validate-new_session :
    (outside : Outside) (settings : Settings) (call : Call) (user_id hashed user_agent : Text)
    (ip : Option Text)
    → validate_session_bindings outside
        (new_session outside settings call user_id hashed (some user_agent) ip)
        (some user_agent)
        ip
      ≡ leb (length user_agent) 512
unfolding validate_session_bindings new_session clip_user_agent
validate-new_session outside settings call user_id hashed [] ip =
    rw (text_eq_refl (or_empty (normalize_ip outside ip))) (ground arith)
validate-new_session outside settings call user_id hashed (c ∷ ua) ip =
    rw (text_eq_refl (or_empty (normalize_ip outside ip)), text_eq-take 512 (c ∷ ua))
      (and_true (leb (suc (length ua)) 512))

abbrev revoked : ℕ → SessionRow → SessionRow
revoked now r = record r { revoked_at = some now }

-- The sessions that a sign-out of the others leaves alone.
abbrev pub stays : Text → Option Text → SessionRow → Bool
stays user_id active r = is_live r && not (text_eq r.user_id user_id && is_other active r)

module _ (user_id : Text) (active : Option Text) (now : ℕ) where
  abbrev after : List SessionRow → List SessionRow
  after = update_where (is_revocable user_id active) (revoked now)

  -- What becomes of one row, by whether it is the user's, is live, and is another.
  live-after :
      (rows : List SessionRow) → keep_if is_live (after rows) ≡ keep_if (stays user_id active) rows
  live-after [] = refl
  live-after (r ∷ rows) = elim (Bool-cases (text_eq r.user_id user_id)) [
    | inl mine ↦ elim (Bool-cases (is_live r)) [
      | inl live ↦ elim (Bool-cases (is_other active r)) [
        | inl other ↦ rw (mine, live, other) (live-after rows)
        | inr this ↦ rw (mine, live, this) (rw (live, live-after rows))
      ]
      | inr dead ↦ rw (mine, dead) (rw (dead, live-after rows))
    ]
    | inr not_mine ↦ elim (Bool-cases (is_live r)) [
      | inl live ↦ rw (not_mine, live) (ap (λ rest. r ∷ rest) (live-after rows))
      | inr dead ↦ rw (not_mine, dead) (live-after rows)
    ]
  ]

  live_count :
      (rows : List SessionRow)
      → length (keep_if is_live rows)
        ≡ length (keep_if (is_revocable user_id active) rows)
          + length (keep_if (stays user_id active) rows)
  live_count [] = refl
  live_count (r ∷ rows) = elim (Bool-cases (text_eq r.user_id user_id)) [
    | inl mine ↦ elim (Bool-cases (is_live r)) [
      | inl live ↦ elim (Bool-cases (is_other active r)) [
        | inl other ↦ rw (mine, live, other) (omega (arith, live_count rows))
        | inr this ↦ rw (mine, live, this) (omega (arith, live_count rows))
      ]
      | inr dead ↦ rw (mine, dead) (live_count rows)
    ]
    | inr not_mine ↦ elim (Bool-cases (is_live r)) [
      | inl live ↦ rw (not_mine, live) (omega (arith, live_count rows))
      | inr dead ↦ rw (not_mine, dead) (live_count rows)
    ]
  ]

-- A sign-out of the other sessions leaves live exactly the sessions that were live and are not the
-- user's or are the active one, and returns by how many the live sessions became fewer.
revoke_other_sessions-live :
    (call : Call) (user_id : Text) (active : Option Text) (d : Database)
    → (n : ℕ) × ((revoke_other_sessions call user_id active d).0 ≡ ok n)
      × (keep_if is_live (revoke_other_sessions call user_id active d).1.now.sessions
          ≡ keep_if (stays user_id active) d.now.sessions)
      × (length (keep_if is_live d.now.sessions)
          ≡ n
            + length (keep_if is_live (revoke_other_sessions call user_id active d).1.now.sessions))
unfolding revoke_other_sessions
revoke_other_sessions-live call user_id active d = (
  length (keep_if (is_revocable user_id active) d.now.sessions),
  refl,
  live-after user_id active call.now d.now.sessions,
  live_count user_id active call.now d.now.sessions
      ∙ ap (λ rows. length (keep_if (is_revocable user_id active) d.now.sessions) + length rows)
          (sym (live-after user_id active call.now d.now.sessions)),
)
