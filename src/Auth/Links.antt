-- ===== src/Auth/Links.antt =====
-- The links sent by mail, of backend/auth/service/registration_service.py and of
-- backend/auth/service/password_reset_service.py. The two files have these functions word for word
-- alike, one on `email_verifications`, the other on `password_resets`; a table is a list of rows,
-- the newest last.
use feature_frontend.Prelude.{
  ℕ, ◌*◌, Bool, true, false, ◌&&◌, not, Option, none, some, List, [], ◌∷◌, ◌++◌, ltb, if◌then◌else◌,
  keep_if, ◌+◌,
}
use feature_frontend.Prelude.Text.{Text, text_eq}
use feature_frontend.Action.{Result, ok, err, invalid_link}
use feature_frontend.Auth.Database.{LinkRow, first_where}
use feature_frontend.Auth.Outside.{Outside, Settings, Call}
use feature_frontend.Auth.Sessions.{split_dots}

abbrev pub verification_window_hours : ℕ
verification_window_hours = 24

abbrev pub password_reset_window_hours : ℕ
password_reset_window_hours = 1

module _ (outside : Outside) (settings : Settings) where
  -- `_sign_verification_token` and `_sign_reset_token`
  unfoldable pub sign_token : Text → Text
  sign_token link_id = outside.hmac_hex settings.email_verification_secret link_id

  -- `_build_verification_token` and `_build_reset_token`
  unfoldable pub build_token : LinkRow → Text
  build_token row = row.id ++ b'.' ∷ sign_token row.id

  -- `_create_email_verification` and `_create_password_reset`: the row, before it is added.
  unfoldable pub new_link : Call → (user_id : Text) → (window_hours : ℕ) → LinkRow
  new_link call user_id window_hours = record {
    id = call.link_id;
    user_id = user_id;
    token_hash = outside.sha256_hex (sign_token call.link_id);
    expires_at = call.now + window_hours * 3600;
    used_at = none;
  }

abbrev pub is_unused : LinkRow → Bool
is_unused row = elim row.used_at [ none ↦ true | some t ↦ false ]

abbrev pub is_active : Call → Text → LinkRow → Bool
is_active call user_id row =
    text_eq row.user_id user_id && is_unused row && ltb call.now row.expires_at

abbrev pub newest : List LinkRow → Option LinkRow
newest [] = none
newest (row ∷ []) = some row
newest (row ∷ next ∷ rows) = newest (next ∷ rows)

unfoldable pub existing_active_token : Call → Text → List LinkRow → Option LinkRow
existing_active_token call user_id rows = newest (keep_if (is_active call user_id) rows)

unfoldable pub purge_tokens : Text → List LinkRow → List LinkRow
purge_tokens user_id = keep_if (λ row. not (text_eq row.user_id user_id))

module _ (outside : Outside) (settings : Settings) where
  abbrev match_hash : Text → Option LinkRow → Result LinkRow
  match_hash signature none = err invalid_link
  match_hash signature (some row) =
      if text_eq row.token_hash (outside.sha256_hex signature) then ok row else err invalid_link

  abbrev match_id : Text → Option Text → List LinkRow → Result LinkRow
  match_id signature none rows = err invalid_link
  match_id signature (some id) rows =
      match_hash signature (first_where (λ row. text_eq row.id id) rows)

  abbrev pub match_parts : List Text → List LinkRow → Result LinkRow
  match_parts (id ∷ signature ∷ []) rows = match_id signature (outside.parse_uuid id) rows
  match_parts parts rows = err invalid_link

  -- `validate_email_verification_token` and `validate_password_reset_token`
  unfoldable pub validate_token : Text → List LinkRow → Result LinkRow
  validate_token token rows = match_parts (split_dots token) rows
