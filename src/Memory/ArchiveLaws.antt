-- ===== src/Memory/ArchiveLaws.antt =====
-- app/agents/archivist_agent.py: which notes are left.
use Prim.Native.Nat.{min}
use feature_frontend.Prelude.{
  ℕ, ◌-◌, ◌*◌, ◌≤◌, ◌<◌, Option, none, some, length, take, length-append, take-length-append, leb,
  ◌≡◌, refl, ap, ◌∙◌, sym, Bool, true, false, not, ◌&&◌, ◌||◌, List, [], ◌∷◌, ◌++◌, any, keep_if,
  Bool-cases, inl, inr, arith,
}
use feature_frontend.Prelude.Text.{Text, text_eq}
use feature_frontend.Memory.Notes.{Payload, MemoryItem, Memory, Json, MemoryLimits, list_notes}
use feature_frontend.Memory.Archive.{
  titled, is_stale, delete_note, delete_notes, stale_notes, has_room, maintain,
}

keep_if-keep_if :
    {A : Type 0} (p q : A → Bool) (xs : List A)
    → keep_if p (keep_if q xs) ≡ keep_if (λ x. q x && p x) xs
keep_if-keep_if p q [] = refl
keep_if-keep_if p q (x ∷ xs) = elim (Bool-cases (q x)) [
  | inl kept ↦ elim (Bool-cases (p x)) [
    | inl both ↦ rw kept (rw both (ap (◌∷◌ x) (keep_if-keep_if p q xs)))
    | inr first ↦ rw kept (rw first (keep_if-keep_if p q xs))
  ]
  | inr dropped ↦ rw dropped (keep_if-keep_if p q xs)
]

keep_if-all : {A : Type 0} (xs : List A) → keep_if (λ x. true) xs ≡ xs
keep_if-all [] = refl
keep_if-all (x ∷ xs) = ap (◌∷◌ x) (keep_if-all xs)

keep_if-cong :
    {A : Type 0} (p q : A → Bool)
    → ((x : A) → p x ≡ q x)
    → (xs : List A) → keep_if p xs ≡ keep_if q xs
keep_if-cong p q same [] = refl
keep_if-cong p q same (x ∷ xs) = elim (Bool-cases (q x)) [
  | inl kept ↦ rw (same x, kept) (ap (◌∷◌ x) (keep_if-cong p q same xs))
  | inr dropped ↦ rw (same x, dropped) (keep_if-cong p q same xs)
]

-- A row of the job whose key is the title of one of the notes.
abbrev pub matches : Text → List Payload → MemoryItem → Bool
matches job_id ps r = any (λ p. is_stale job_id p r) ps

de_morgan : (a b : Bool) → not a && not b ≡ not (a || b)
de_morgan a b = ground arith

delete_notes-items :
    (job_id : Text) (ps : List Payload) (m : Memory)
    → (delete_notes job_id ps m).items ≡ keep_if (λ r. not (matches job_id ps r)) m.items
delete_notes-items job_id [] m = sym (keep_if-all m.items)
delete_notes-items job_id (p ∷ ps) m =
    delete_notes-items job_id ps (delete_note job_id p m)
    ∙ keep_if-keep_if (λ r. not (matches job_id ps r)) (λ r. not (is_stale job_id p r)) m.items
    ∙ keep_if-cong _ _ (λ r. de_morgan (is_stale job_id p r) (matches job_id ps r)) m.items

delete_notes-files :
    (job_id : Text) (ps : List Payload) (m : Memory) → (delete_notes job_id ps m).files ≡ m.files
delete_notes-files job_id [] m = refl
delete_notes-files job_id (p ∷ ps) m = delete_notes-files job_id ps (delete_note job_id p m)

leb-true : (a b : ℕ) → a ≤ b → leb a b ≡ true
leb-true a b h = ground arith

leb-false : (a b : ℕ) → b < a → leb a b ≡ false
leb-false a b h = ground arith

abbrev pub has_title : Option Text → Text → Bool
has_title none key = false
has_title (some t) key = text_eq key t

-- A row of the job whose key is the title of one of some notes.
abbrev pub shares_title : Text → List Payload → MemoryItem → Bool
shares_title job_id notes r =
    text_eq r.job_id job_id && any (λ (p : Payload). has_title p.title r.key) notes

titled-has_title : (t : Option Text) (r : MemoryItem) → titled t r ≡ has_title t r.key
titled-has_title none r = refl
titled-has_title (some t) r = refl

matches-shares_title :
    (job_id : Text) (ps : List Payload) (r : MemoryItem)
    → matches job_id ps r ≡ shares_title job_id ps r
matches-shares_title job_id [] r = ground arith
matches-shares_title job_id (p ∷ ps) r =
    ground (arith, titled-has_title p.title r, matches-shares_title job_id ps r)

module _ (json : Json) (limits : MemoryLimits) (job_id : Text) (m : Memory) where
  stale_notes-old :
      (old recent : List Payload)
      → list_notes json job_id m ≡ old ++ recent
      → length recent ≡ min 10 (length (old ++ recent))
      → stale_notes json job_id m ≡ old
  stale_notes-old old recent split ten =
      let count : length (old ++ recent) - 10 ≡ length old =
        omega (arith, length-append old recent, ten) in
      ap (λ ns. take (length ns - 10) ns) split
      ∙ ap (λ n. take n (old ++ recent)) count
      ∙ take-length-append old recent

  -- A job whose notes are at most four fifths of the limit is left alone. Of the notes of another,
  -- all but the last ten are written to a file, and then exactly the rows of the job go whose key
  -- is the title of one of those: a note among the last ten goes too, without being in the
  -- file, when an older one has its title.
  pub maintain-items :
      (old recent : List Payload)
      → list_notes json job_id m ≡ old ++ recent
      → length recent ≡ min 10 (length (old ++ recent))
      → (5 * length (old ++ recent) ≤ 4 * limits.max_items_per_job
          → maintain json limits job_id m ≡ m)
        × (4 * limits.max_items_per_job < 5 * length (old ++ recent)
            → ((maintain json limits job_id m).items
                ≡ keep_if (λ r. not (shares_title job_id old r)) m.items)
              × ((maintain json limits job_id m).files
                  ≡ m.files ++ (job_id, json.dumps_all old) ∷ []))
  unfolding maintain
  maintain-items old recent split ten = (
    λ few.
        let room : has_room json limits job_id m ≡ true = rw split (leb-true _ _ few) in
        rw room refl,
    λ many.
        let full : has_room json limits job_id m ≡ false = rw split (leb-false _ _ many) in
        let stale = stale_notes-old old recent split ten in
        rw full (
          delete_notes-items job_id (stale_notes json job_id m) _
              ∙ keep_if-cong _ _
                  (λ r.
                    ap not
                      (ap (λ ps. matches job_id ps r) stale ∙ matches-shares_title job_id old r))
                  m.items,
          delete_notes-files job_id (stale_notes json job_id m) _
              ∙ ap (λ ps. m.files ++ (job_id, json.dumps_all ps) ∷ []) stale,
        ),
  )
