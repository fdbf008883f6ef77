-- ===== src/Auth/RecoveryLaws.antt =====
-- backend/auth/service/auth_service.py: a recovery code is good for one use.
use feature_frontend.Prelude.{
  ◌≡◌, refl, ap, ◌∙◌, sym, false, some, List, [], ◌∷◌, Bool-cases, inl, inr, any,
}
use feature_frontend.Prelude.Text.{Text, text_eq, text_eq_refl}
use feature_frontend.Action.{ok, err, bind-ok, guard, guard-ok, modify, ◌>>◌, invalid_code}
use feature_frontend.Auth.Database.{User, Database, get_user, set_user}
use feature_frontend.Auth.Outside.{Outside}
use feature_frontend.Auth.Sessions.{hash_token}
use feature_frontend.Auth.Search.{first_where-update_where}
use feature_frontend.Auth.Recovery.{rotate_recovery_codes, keep_codes, spend_code}

-- The codes that are left are the others, and a code that was there is there no more.
rotated_away :
    (code_hash : Text) (existing : List Text)
    → any (λ code. text_eq code code_hash) (rotate_recovery_codes existing code_hash) ≡ false
unfolding rotate_recovery_codes
rotated_away code_hash [] = refl
rotated_away code_hash (x ∷ existing) = elim (Bool-cases (text_eq x code_hash)) [
  | inl used ↦ rw used (rotated_away code_hash existing)
  | inr other ↦ rw other (rw (other, rotated_away code_hash existing))
]

spend_code-taken :
    (outside : Outside) (user : User) (recovery_code code_hash : Text) (d : Database)
    → hash_token outside recovery_code ≡ ok code_hash
    → any (λ code. text_eq code code_hash) (outside.load_recovery_codes user.recovery_codes) ≡ false
    → (spend_code outside user recovery_code d).0 ≡ err invalid_code
unfolding spend_code
spend_code-taken outside user recovery_code code_hash d hashed taken = rw hashed (rw taken)

-- A user with a code taken.
abbrev left_of : Outside → User → Text → User
left_of outside user code_hash = record user {
  recovery_codes = some (
      outside.encrypt_json
        (rotate_recovery_codes (outside.load_recovery_codes user.recovery_codes) code_hash));
}

-- Where the encryption of a list of codes is undone by the code that loads it, a recovery code is
-- good for one use: once it was taken from a user that is stored, the user is stored with codes
-- under which it is refused as invalid.
pub spend_code-once :
    (outside : Outside) (user : User) (recovery_code : Text) (d after : Database)
    → ((codes : List Text)
        → outside.load_recovery_codes (some (outside.encrypt_json codes)) ≡ codes)
    → get_user user.id d.now.users ≡ some user
    → spend_code outside user recovery_code d ≡ (ok tt, after)
    → (left : User) × (get_user user.id after.now.users ≡ some left)
      × ((later : Database) → (spend_code outside left recovery_code later).0 ≡ err invalid_code)
unfolding spend_code get_user set_user
spend_code-once outside user recovery_code d after load-encrypt stored spent =
    let hashed_codes = outside.load_recovery_codes user.recovery_codes in
    let (code_hash, d1, hashed, h1) =
      bind-ok (hash_token outside recovery_code, d)
        (λ code_hash.
          guard (any (λ code. text_eq code code_hash) hashed_codes) invalid_code
          >> modify (keep_codes outside hashed_codes code_hash user.id))
        spent in
    let save = modify (keep_codes outside hashed_codes code_hash user.id) in
    let (_, d2, guarded, h2) =
      bind-ok (guard (any (λ code. text_eq code code_hash) hashed_codes) invalid_code d1)
        (λ _. save) h1 in
    let (_, unchanged) =
      guard-ok (any (λ code. text_eq code code_hash) hashed_codes) invalid_code d1 guarded in
    let start : d ≡ d2 = ap (λ x. x.1) hashed ∙ unchanged in
    let done : keep_codes outside hashed_codes code_hash user.id d ≡ after =
      ap (keep_codes outside hashed_codes code_hash user.id) start ∙ ap (λ x. x.1) h2 in
    (
      left_of outside user code_hash,
      ap (λ x. get_user user.id x.now.users) (sym done)
          ∙ first_where-update_where (λ u. text_eq u.id user.id) (λ u. text_eq u.id user.id) _
              (λ u. refl) d.now.users user stored (text_eq_refl user.id),
      λ later.
          spend_code-taken outside (left_of outside user code_hash) recovery_code code_hash later
            (ap (λ x. x.0) hashed)
            (ap (any (λ code. text_eq code code_hash)) (load-encrypt _)
              ∙ rotated_away code_hash hashed_codes),
    )
