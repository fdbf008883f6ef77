-- ===== src/Auth/Sessions.antt =====
-- backend/auth/service/session_service.py, and `hash_token` of backend/auth/tokens.
use feature_frontend.Prelude.{
  ℕ, ◌+◌, Bool, true, false, not, ◌&&◌, Option, none, some, List, [], ◌∷◌, ◌++◌, ◌==◌,
  if◌then◌else◌, take, length, keep_if,
}
use feature_frontend.Prelude.Text.{Text, codes, text_eq}
use feature_frontend.Action.{
  Result, ok, err, Action, value_error, ◌>>=◌, ◌>>◌, pure, gets, lift, modify,
}
use feature_frontend.Auth.Database.{SessionRow, Database, first_where, update_where}
use feature_frontend.Auth.Outside.{Settings, Outside, Call, Address, not_an_address, ipv4, ipv6}

-- A token is stored as its SHA-256; an empty one is a ValueError.
unfoldable pub hash_token : Outside → Text → Result Text
hash_token outside [] = err value_error
hash_token outside (c ∷ value) = ok (outside.sha256_hex (c ∷ value))

-- The parts of an address between its dots, the first part growing.
abbrev pub cons_part : ℕ → List Text → List Text
cons_part c [] = (c ∷ []) ∷ []
cons_part c (p ∷ ps) = (c ∷ p) ∷ ps

-- `ip.split(".")`
unfoldable pub split_dots : Text → List Text
split_dots [] = [] ∷ []
split_dots (c ∷ s) = let rest = split_dots s in if c == b'.' then [] ∷ rest else cons_part c rest

-- `".".join(parts)`
abbrev pub join_dots : List Text → Text
join_dots [] = []
join_dots (p ∷ []) = p
join_dots (p ∷ q ∷ ps) = p ++ b'.' ∷ join_dots (q ∷ ps)

abbrev pub normalize_address : Text → Address → Text
normalize_address ip not_an_address = ip
normalize_address ip ipv4 = join_dots (take 3 (split_dots ip)) ++ codes ".0/24"
normalize_address ip (ipv6 t) = t

unfoldable pub normalize_ip : Outside → Option Text → Option Text
normalize_ip outside none = none
normalize_ip outside (some []) = none
normalize_ip outside (some (c ∷ ip)) =
    some (normalize_address (c ∷ ip) (outside.ip_address (c ∷ ip)))

-- `user_agent[:512] if user_agent else None`
abbrev pub max_user_agent : ℕ
max_user_agent = 512

unfoldable pub clip_user_agent : Option Text → Option Text
clip_user_agent none = none
clip_user_agent (some []) = none
clip_user_agent (some (c ∷ ua)) = some (take max_user_agent (c ∷ ua))

abbrev pub on_sessions : (List SessionRow → List SessionRow) → Database → Database
on_sessions f d = record d { now = record d.now { sessions = f d.now.sessions } }

unfoldable pub new_session :
    Outside
    → Settings
    → Call
    → (user_id refresh_token_hash : Text) (user_agent ip : Option Text) → SessionRow
new_session outside settings call user_id refresh_token_hash user_agent ip = record {
  id = call.session_id;
  user_id = user_id;
  refresh_token_hash = refresh_token_hash;
  expires_at = call.now + settings.jwt_refresh_ttl_seconds;
  rotated_at = none;
  user_agent = clip_user_agent user_agent;
  ip = normalize_ip outside ip;
  revoked_at = none;
}

unfoldable pub create_session :
    Outside
    → Settings
    → Call
    → (user_id refresh_token : Text) (user_agent ip : Option Text) → Action Database SessionRow
create_session outside settings call user_id refresh_token user_agent ip = do
  hashed ← lift (hash_token outside refresh_token)
  let row = new_session outside settings call user_id hashed user_agent ip
  modify (on_sessions (λ rows. rows ++ row ∷ []))
  pure row

unfoldable pub by_hash : Text → List SessionRow → Option SessionRow
by_hash hashed = first_where (λ r. text_eq r.refresh_token_hash hashed)

unfoldable pub find_session_by_refresh : Outside → Text → Action Database (Option SessionRow)
find_session_by_refresh outside token = do
  hashed ← lift (hash_token outside token)
  gets (λ d. by_hash hashed d.now.sessions)

-- A loaded session is changed: the row with its id.
abbrev pub change_session : SessionRow → (SessionRow → SessionRow) → Database → Database
change_session session_record f = on_sessions (update_where (λ r. text_eq r.id session_record.id) f)

unfoldable pub rotate_session_refresh :
    Outside → Settings → Call → SessionRow → Text → Action Database (Unit {0})
rotate_session_refresh outside settings call session_record new_refresh_token = do
  hashed ← lift (hash_token outside new_refresh_token)
  modify (
      change_session session_record (λ r. record r {
        refresh_token_hash = hashed;
        expires_at = call.now + settings.jwt_refresh_ttl_seconds;
        rotated_at = some call.now;
      }))

abbrev pub is_live : SessionRow → Bool
is_live r = elim r.revoked_at [ none ↦ true | some t ↦ false ]

-- A session that has been revoked keeps its time.
unfoldable pub revoke_session : Call → SessionRow → Action Database (Unit {0})
revoke_session call session_record = modify (λ d.
    if is_live session_record
    then change_session session_record (λ r. record r { revoked_at = some call.now }) d
    else d)

abbrev pub is_other : Option Text → SessionRow → Bool
is_other none r = true
is_other (some active) r = not (text_eq r.id active)

-- The rows of the UPDATE: live sessions of the user, but for the active one.
abbrev pub is_revocable : Text → Option Text → SessionRow → Bool
is_revocable user_id active r = text_eq r.user_id user_id && is_live r && is_other active r

unfoldable pub revoke_other_sessions : Call → Text → Option Text → Action Database ℕ
revoke_other_sessions call user_id active d = (
  ok (length (keep_if (is_revocable user_id active) d.now.sessions)),
  on_sessions
      (update_where (is_revocable user_id active) (λ r. record r { revoked_at = some call.now })) d,
)

-- `value or ""`
abbrev pub or_empty : Option Text → Text
or_empty none = []
or_empty (some t) = t

unfoldable pub validate_session_bindings :
    Outside → SessionRow → (user_agent ip : Option Text) → Bool
validate_session_bindings outside session_record user_agent ip =
    text_eq (or_empty session_record.user_agent) (or_empty user_agent)
    && text_eq (or_empty session_record.ip) (or_empty (normalize_ip outside ip))
