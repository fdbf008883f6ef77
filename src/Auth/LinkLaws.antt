-- ===== src/Auth/LinkLaws.antt =====
-- The links sent by mail: a link that is sent is the one that is found, and is found no more once
-- the links of its user are purged.
use feature_frontend.Prelude.{
  ◌≡◌, ◌≤◌, refl, ap, ◌∙◌, Bool, true, false, not, ◌||◌, none, some, List, [], ◌∷◌, ◌++◌, ◌==◌,
  Bool-cases, Option-cases, inl, inr, any, keep_if, length, arith,
}
use feature_frontend.Prelude.Text.{Text, text_eq, text_eq_refl, text_eq_iff}
use feature_frontend.Action.{ok, err, invalid_link}
use feature_frontend.Auth.Database.{LinkRow, first_where}
use feature_frontend.Auth.Outside.{Outside, Settings}
use feature_frontend.Auth.Search.{first_where-passes, first_where-deleted}
use feature_frontend.Auth.Sessions.{split_dots}
use feature_frontend.Auth.Links.{sign_token, build_token, purge_tokens, match_parts, validate_token}

abbrev pub has_dot : Text → Bool
has_dot = any (λ c. c == b'.')

or-false : (a b : Bool) → (a || b) ≡ false → (a ≡ false) × (b ≡ false)
or-false true b h = absurd (cc)
or-false false b h = (refl, h)

split-undotted : (s : Text) → has_dot s ≡ false → split_dots s ≡ s ∷ []
unfolding split_dots
split-undotted [] plain = refl
split-undotted (c ∷ s) plain =
    let (other, rest) = or-false (c == b'.') (has_dot s) plain in
    rw other (rw (split-undotted s rest))

-- Two texts without a dot come apart at the dot between them.
split-join :
    (s t : Text) → has_dot s ≡ false → has_dot t ≡ false → split_dots (s ++ b'.' ∷ t) ≡ s ∷ t ∷ []
unfolding split_dots
split-join [] t plain plain' = rw (split-undotted t plain')
split-join (c ∷ s) t plain plain' =
    let (other, rest) = or-false (c == b'.') (has_dot s) plain in
    rw other (rw (split-join s t rest plain'))

-- The token in a mail leads back to its row: it does for a row that a search by its id finds, which
-- has the hash of its own signature, and whose id is a UUID in its canonical spelling, where
-- neither that nor a signature has a dot.
pub validate_token-build_token :
    (outside : Outside) (settings : Settings) (row : LinkRow) (rows : List LinkRow)
    → first_where (λ r. text_eq r.id row.id) rows ≡ some row
    → row.token_hash ≡ outside.sha256_hex (sign_token outside settings row.id)
    → outside.parse_uuid row.id ≡ some row.id
    → has_dot row.id ≡ false
    → has_dot (sign_token outside settings row.id) ≡ false
    → validate_token outside settings (build_token outside settings row) rows ≡ ok row
unfolding validate_token build_token
validate_token-build_token outside settings row rows found hashed canonical plain plain' =
    rw (split-join row.id (sign_token outside settings row.id) plain plain') (
      rw canonical (
        rw found (
          rw hashed (rw (text_eq_refl (outside.sha256_hex (sign_token outside settings row.id)))))))

module _ (outside : Outside) (settings : Settings) (row : LinkRow) (rows : List LinkRow) where
  -- The ids of the rows are their key.
  abbrev rows_with_id : List LinkRow
  rows_with_id = keep_if (λ r. text_eq r.id row.id) rows

  found-purged :
      (uuid : Text)
      → length rows_with_id ≤ 1
      → first_where (λ r. text_eq r.id uuid) rows ≡ some row
      → first_where (λ r. text_eq r.id uuid) (purge_tokens row.user_id rows) ≡ none
  unfolding purge_tokens
  found-purged uuid few found =
      let its_id : row.id ≡ uuid =
        (text_eq_iff row.id uuid).0 (first_where-passes (λ r. text_eq r.id uuid) rows row found) in
      let few' : length (keep_if (λ r. text_eq r.id uuid) rows) ≤ 1 =
        omega (arith, ap (λ id. length (keep_if (λ r. text_eq r.id id) rows)) its_id, few) in
      first_where-deleted (λ r. text_eq r.id uuid) (λ r. not (text_eq r.user_id row.user_id)) rows
        row few' found (rw (text_eq_refl row.user_id))

  parts-purged :
      (parts : List Text)
      → match_parts outside settings parts rows ≡ ok row
      → length rows_with_id ≤ 1
      → match_parts outside settings parts (purge_tokens row.user_id rows) ≡ err invalid_link
  parts-purged [] h few = refl
  parts-purged (x ∷ []) h few = refl
  parts-purged (x ∷ y ∷ z ∷ parts) h few = refl
  parts-purged (id ∷ signature ∷ []) h few = elim (Option-cases (outside.parse_uuid id)) [
    | inl no_uuid ↦ rw no_uuid
    | inr (uuid, parsed) ↦ elim (Option-cases (first_where (λ r. text_eq r.id uuid) rows)) [
      | inl absent ↦
          let failed : match_parts outside settings (id ∷ signature ∷ []) rows ≡ err invalid_link =
            rw parsed (rw absent) in
          absurd (cc)
      | inr (found_row, found) ↦
          elim (Bool-cases (text_eq found_row.token_hash (outside.sha256_hex signature))) [
            | inl signed ↦
                let same : match_parts outside settings (id ∷ signature ∷ []) rows ≡ ok found_row =
                  rw parsed (rw found (rw signed)) in
                let this : found_row ≡ row = cc in
                rw parsed (rw (found-purged uuid few (found ∙ ap (λ r. some r) this)))
            | inr forged ↦
                let failed : match_parts outside settings (id ∷ signature ∷ []) rows
                    ≡ err invalid_link =
                  rw parsed (rw found (rw forged)) in
                absurd (cc)
          ]
    ]
  ]

  -- A token that led to a link leads to none once the links of its user are purged, where no two
  -- links have its id.
  pub validate_token-purged :
      (token : Text)
      → validate_token outside settings token rows ≡ ok row
      → length rows_with_id ≤ 1
      → validate_token outside settings token (purge_tokens row.user_id rows) ≡ err invalid_link
  unfolding validate_token
  validate_token-purged token = parts-purged (split_dots token)
