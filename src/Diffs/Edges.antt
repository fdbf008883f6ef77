-- ===== src/Diffs/Edges.antt =====
-- app/core/diffs.py: what the reader writes to, when it gives up on a hunk, and what it does with a
-- range that begins at line 0.
use feature_frontend.Prelude.{
  ℕ, zero, suc, ◌-◌, ◌≡◌, refl, ap, sym, ◌∙◌, ◌⊎◌, inl, inr, Bool, true, false, none, some, List,
  [], ◌∷◌, ◌++◌, map, length, take, drop, get_elem?, arith, All, Bool-cases, Option-cases,
  length-append, take-length-append, drop-length-append, ltb, ltb→lt,
}
use mathlib.Core.List.{append_assoc, append-nil}
use feature_frontend.Prelude.Int.{negsuc, slice_from}
use feature_frontend.Prelude.Text.{Text, strip, starts_with, codes}
use feature_frontend.Diffs.Header.{DiffHeader}
use feature_frontend.Diffs.Hunk.{int_of}
use feature_frontend.Diffs.Rebuild.{Place, hunk_line, hunk_lines, start_hunk, run_hunk}
use feature_frontend.Diffs.Apply.{
  Tree, is_empty, is_directory, path_or, apply_file, patch_file, apply_lines, apply_unified_diff,
}
use feature_frontend.Diffs.Hunks.{place}

-- A path that can be written: neither blank nor that of a directory.
abbrev pub Writable : Tree → Text × Text → Type 0
Writable tree result = (is_empty (strip result.0) ≡ false) × (is_directory (tree result.0) ≡ false)

All-append {ℓ κ} :
    {A : Type ℓ} (P : A → Type κ) (xs ys : List A) → All P xs → All P ys → All P (xs ++ ys)
All-append P [] ys h k = k
All-append P (x ∷ xs) ys (p, h) k = (p, All-append P xs ys h k)

-- A file gives no result, or one that can be written.
apply_file_cases :
    (tree : Tree) (trailing : Bool) (header : DiffHeader) (chunk : List Text)
    → (apply_file tree trailing header chunk ≡ [])
      ⊎ ((result : Text × Text) × (apply_file tree trailing header chunk ≡ result ∷ [])
          × Writable tree result)
unfolding apply_file
apply_file_cases tree trailing header chunk =
    elim (Option-cases (path_or header.new_path header.old_path)) [
      | inl e ↦ inl (rw (e, apply_file))
      | inr (target, e) ↦ elim (Bool-cases (is_empty (strip target))) [
        | inl blank ↦ inl (rw (e, apply_file) (rw blank))
        | inr named ↦ elim (Bool-cases (is_directory (tree target))) [
          | inl folder ↦ inl (rw (e, apply_file) (rw (named, folder)))
          | inr writable ↦ inr (
            (target, patch_file tree trailing header chunk),
            rw (e, apply_file) (rw (named, writable)),
            (named, writable),
          )
        ]
      ]
    ]

apply_file-Writable :
    (tree : Tree) (trailing : Bool) (header : DiffHeader) (chunk : List Text)
    → All (Writable tree) (apply_file tree trailing header chunk)
apply_file-Writable tree trailing header chunk =
    elim (apply_file_cases tree trailing header chunk) [
      | inl nothing ↦ rw nothing tt
      | inr (result, one, writable) ↦ rw one (writable, tt)
    ]

apply_lines-Writable :
    (tree : Tree) (trailing : Bool) (ls : List Text)
    → All (Writable tree) (apply_lines tree trailing ls)
unfolding apply_lines
apply_lines-Writable tree trailing [] = tt
apply_lines-Writable tree trailing (l ∷ ls) = elim (Bool-cases (starts_with (codes "--- ") l)) [
  | inl opens ↦ rw opens (
      All-append (Writable tree) _ _ (apply_file-Writable tree trailing _ _)
        (apply_lines-Writable tree trailing ls))
  | inr other ↦ rw other (apply_lines-Writable tree trailing ls)
]

-- Whatever the text of the diff, every result names a path that is not blank and at which the tree
-- has no directory.
pub apply_unified_diff-Writable :
    (tree : Tree) (diff_text : Text) → All (Writable tree) (apply_unified_diff tree diff_text)
unfolding apply_unified_diff
apply_unified_diff-Writable tree diff_text = apply_lines-Writable tree _ _

-- A line moves a cursor that is not negative to one that is not, and reads no line that is not
-- there.
get_elem?-in_range {ℓ} :
    {A : Type ℓ} (xs : List A) (i : ℕ)
    → ltb i (length xs) ≡ true
    → (x : A) × (get_elem? xs i ≡ some x)
get_elem?-in_range [] i h = absurd (omega (arith, ltb→lt i 0 h))
get_elem?-in_range (x ∷ xs) zero h = (x, refl)
get_elem?-in_range (x ∷ xs) (suc i) h = get_elem?-in_range xs i (ground arith)

hunk_line-total :
    (source r : List Text) (c : ℕ) (l : Text)
    → (r' : List Text) × (c' : ℕ) × (hunk_line source (place r c) l ≡ some (place r' c'))
unfolding hunk_line
hunk_line-total source r c l = elim (Bool-cases (starts_with (codes " ") l)) [
  | inl context ↦ elim (Bool-cases (ltb c (length source))) [
    | inl inside ↦
        let (x, e) = get_elem?-in_range source c inside in
        (r ++ x ∷ [], suc c, rw context (rw inside (rw e)))
    | inr outside ↦ (r ++ drop 1 l ∷ [], suc c, rw context (rw outside))
  ]
  | inr other ↦ elim (Bool-cases (starts_with (codes "-") l)) [
    | inl gone ↦ (r, suc c, rw other (rw gone))
    | inr more ↦ elim (Bool-cases (starts_with (codes "+") l)) [
      | inl added ↦ (r ++ drop 1 l ∷ [], c, rw other (rw more (rw added)))
      | inr unknown ↦ (r, c, rw other (rw more (rw unknown)))
    ]
  ]
]

hunk_lines-total :
    (source body r : List Text) (c : ℕ)
    → (p : Place) × (hunk_lines source body (place r c) ≡ some p)
unfolding hunk_lines
hunk_lines-total source [] r c = (place r c, refl)
hunk_lines-total source (l ∷ body) r c =
    let (r', c', e) = hunk_line-total source r c l in
    let (p, e') = hunk_lines-total source body r' c' in (p, rw (e, hunk_lines) e')

start_hunk-suc :
    (source r : List Text) (c n : ℕ)
    → (r' : List Text) × (c' : ℕ) × (start_hunk source (suc n) (place r c) ≡ place r' c')
unfolding start_hunk
start_hunk-suc source r c n = elim (Bool-cases (ltb (length source) n)) [
  | inl beyond ↦ (r ++ drop c (take (length source) source), length source, rw beyond)
  | inr within ↦ (r ++ drop c (take n source), n, rw within)
]

-- A hunk with ranges fails only where its first number does not fit `int` or is zero: the lines of
-- any other hunk, whatever they are, run to their end.
run_hunk-eq-none :
    (source : List Text) (digits : List ℕ) (body r : List Text) (c : ℕ)
    → run_hunk source digits body (place r c) ≡ none
    → (int_of digits ≡ none) ⊎ (int_of digits ≡ some 0)
unfolding run_hunk
run_hunk-eq-none source digits body r c h = elim (Option-cases (int_of digits)) [
  | inl too_long ↦ inl too_long
  | inr (zero, e) ↦ inr e
  | inr (suc n, e) ↦
      let (r', c', start) = start_hunk-suc source r c n in
      let (p, run) = hunk_lines-total source body r' c' in
      let ran : run_hunk source digits body (place r c) ≡ some p =
        rw (e, run_hunk) (rw start run) in
      cc
]

abbrev pub added : Text → Text
added l = b'+' ∷ l

inserts_run :
    (source ins r : List Text) (p : Place)
    → p.rebuilt ≡ r
    → hunk_lines source (map added ins) p ≡ some (record p { rebuilt = r ++ ins })
unfolding hunk_lines hunk_line
inserts_run source [] r p e = ap (λ t. some (record p { rebuilt = t })) (e ∙ sym (append-nil r))
inserts_run source (l ∷ ins) r p e =
    inserts_run source ins (r ++ l ∷ []) (record p { rebuilt = p.rebuilt ++ l ∷ [] })
      (ap (λ t. t ++ l ∷ []) e)
    ∙ ap (λ t. some (record p { rebuilt = t })) (append_assoc r (l ∷ []) ins)

-- A range that begins at line 0 of a file with lines, as for an insertion above the first line,
-- puts the new lines above the last line.
pub run_hunk-zero :
    (front : List Text) (last : Text) (ins : List Text) (digits : List ℕ)
    → int_of digits ≡ some 0
    → (p : Place) × (run_hunk (front ++ last ∷ []) digits (map added ins) (place [] 0) ≡ some p)
      × (p.rebuilt ++ slice_from (front ++ last ∷ []) p.cursor ≡ front ++ (ins ++ last ∷ []))
unfolding run_hunk start_hunk
run_hunk-zero front last ins digits e =
    let size : length (front ++ last ∷ []) - 1 ≡ length front =
      omega (arith, length-append front (last ∷ [])) in
    let copied : take (length (front ++ last ∷ []) - 1) (front ++ last ∷ []) ≡ front =
      rw size (take-length-append front (last ∷ [])) in
    let left : drop (length (front ++ last ∷ []) - 1) (front ++ last ∷ []) ≡ last ∷ [] =
      rw size (drop-length-append front (last ∷ [])) in
    (
      record { rebuilt = front ++ ins; cursor = negsuc 0 },
      rw (e, run_hunk) (inserts_run (front ++ last ∷ []) ins front _ copied),
      rw left (append_assoc front ins (last ∷ [])),
    )
