-- ===== src/Diffs/Hunks.antt =====
-- The loop over the hunks of one file does what the diff means.
use feature_frontend.Prelude.{
  ℕ, suc, ◌+◌, ◌≡◌, refl, ap, sym, ◌∙◌, Bool, true, false, ◌||◌, some, List, [], ◌∷◌, ◌++◌, map,
  length, take, drop, get_elem?, arith, ltb, lt→ltb, length-append, drop-length-append,
  take-length-append, take-add-append, not,
}
use mathlib.Core.List.{append_assoc, append-nil}
use feature_frontend.Prelude.Int.{pos, slice_from}
use feature_frontend.Prelude.Text.{Text, codes, strip, text_eq}
use feature_frontend.Diffs.Rebuild.{
  Rebuild, Place, is_range, hunk_line, hunk_lines, start_hunk, run_hunk, hunk_loop, body_of,
  place_of, move_to,
}
use feature_frontend.Diffs.Hunk.{match_hunk, int_of}
use feature_frontend.Diffs.Apply.{is_empty}
use feature_frontend.Diffs.Render.{
  Edit, keep, delete, insert, Hunk, old_lines, new_lines, before, after, render_edit, render,
  Placed,
}

get_elem?-length-append {ℓ} :
    {A : Type ℓ} (xs : List A) (y : A) (ys : List A) → get_elem? (xs ++ y ∷ ys) (length xs) ≡ some y
get_elem?-length-append [] y ys = refl
get_elem?-length-append (x ∷ xs) y ys = get_elem?-length-append xs y ys

inside {ℓ} :
    {A : Type ℓ} (xs : List A) (y : A) (ys : List A)
    → ltb (length xs) (length (xs ++ y ∷ ys)) ≡ true
inside xs y ys = lt→ltb _ _ (omega (arith, length-append xs (y ∷ ys)))

abbrev pub place : List Text → ℕ → Place
place r c = record { rebuilt = r; cursor = pos c }

add-suc : (a b : ℕ) → suc a + b ≡ a + suc b
add-suc a b = omega arith

snoc-append {ℓ} :
    {A : Type ℓ} (xs : List A) (y : A) (ys : List A) → (xs ++ y ∷ []) ++ ys ≡ xs ++ y ∷ ys
snoc-append xs y ys = append_assoc xs (y ∷ []) ys

length-snoc {ℓ} : {A : Type ℓ} (xs : List A) (y : A) → length (xs ++ y ∷ []) ≡ suc (length xs)
length-snoc xs y = omega (arith, length-append xs (y ∷ []))

-- A line that stays is copied from the source, and the cursor passes over it.
keep_line :
    (source front : List Text) (x : Text) (rest r : List Text) (c : ℕ)
    → source ≡ front ++ x ∷ rest
    → c ≡ length front
    → hunk_line source (place r c) (b' ' ∷ x) ≡ some (place (r ++ x ∷ []) (suc c))
unfolding hunk_line
keep_line source front x rest r c e k =
    let fits : ltb c (length source) ≡ true = rw (e, k) (inside front x rest) in
    let found : get_elem? source c ≡ some x = rw (e, k) (get_elem?-length-append front x rest) in
    rw (fits, found)

edits_run :
    (source front : List Text) (es : List Edit) (rest r : List Text) (c : ℕ)
    → source ≡ front ++ (old_lines es ++ rest)
    → c ≡ length front
    → hunk_lines source (map render_edit es) (place r c)
      ≡ some (place (r ++ new_lines es) (c + length (old_lines es)))
unfolding hunk_lines hunk_line
edits_run source front [] rest r c e k = rw append-nil (ap (λ t. some (place r t)) (omega arith))
edits_run source front (keep x ∷ es) rest r c e k =
    rw (keep_line source front x (old_lines es ++ rest) r c e k, hunk_lines)
      (edits_run source (front ++ x ∷ []) es rest (r ++ x ∷ []) (suc c)
          (e ∙ sym (snoc-append front x (old_lines es ++ rest)))
          (ap suc k ∙ sym (length-snoc front x))
        ∙ cc (snoc-append r x (new_lines es), add-suc c (length (old_lines es))))
edits_run source front (delete x ∷ es) rest r c e k =
    edits_run source (front ++ x ∷ []) es rest r (suc c)
      (e ∙ sym (snoc-append front x (old_lines es ++ rest))) (ap suc k ∙ sym (length-snoc front x))
    ∙ ap (λ t. some (place (r ++ new_lines es) t)) (omega arith)
edits_run source front (insert x ∷ es) rest r c e k =
    edits_run source front es rest (r ++ x ∷ []) c e k
    ∙ ap (λ t. some (place t (c + length (old_lines es)))) (snoc-append r x (new_lines es))

-- The slice between two places of a list.
slice-middle :
    (source front gap rest : List Text) (c : ℕ)
    → source ≡ front ++ (gap ++ rest)
    → c ≡ length front
    → drop c (take (c + length gap) source) ≡ gap
slice-middle source front gap rest c e k =
    rw (e, k, take-add-append, take-length-append, drop-length-append)

gap_copied :
    (source front gap rest r : List Text) (c : ℕ)
    → source ≡ front ++ (gap ++ rest)
    → c ≡ length front
    → start_hunk source (suc (c + length gap)) (place r c) ≡ place (r ++ gap) (c + length gap)
unfolding start_hunk
gap_copied source front gap rest r c e k =
    let size : length source ≡ length front + (length gap + length rest) =
      ap length e
      ∙ length-append front (gap ++ rest)
      ∙ ap (λ n. length front + n) (length-append gap rest) in
    let short : ltb (length source) (c + length gap) ≡ false = ground arith in
    rw short (ap (λ t. place (r ++ t) (c + length gap)) (slice-middle source front gap rest c e k))

-- The lines of a hunk are those up to the next range line.
body_of-render :
    (es : List Edit) (hs : List Hunk) (n : ℕ)
    → Placed n hs
    → body_of (map render_edit es ++ render hs) ≡ map render_edit es
body_of-render [] [] n h = refl
body_of-render [] (g ∷ hs) n h = rw (h.0.opens)
body_of-render (keep x ∷ es) hs n h = rw (body_of-render es hs n h)
body_of-render (delete x ∷ es) hs n h = rw (body_of-render es hs n h)
body_of-render (insert x ∷ es) hs n h = rw (body_of-render es hs n h)

hunk_loop-skip :
    (source chunk : List Text) (es : List Edit) (ls : List Text) (r : Rebuild)
    → hunk_loop source chunk (map render_edit es ++ ls) r ≡ hunk_loop source chunk ls r
unfolding hunk_loop
hunk_loop-skip source chunk [] ls r = refl
hunk_loop-skip source chunk (keep x ∷ es) ls r = hunk_loop-skip source chunk es ls r
hunk_loop-skip source chunk (delete x ∷ es) ls r = hunk_loop-skip source chunk es ls r
hunk_loop-skip source chunk (insert x ∷ es) ls r = hunk_loop-skip source chunk es ls r

-- The state of the loop at a place.
abbrev pub at : Rebuild → List Text → ℕ → Rebuild
at r rebuilt c = record r { rebuilt = rebuilt; cursor = pos c }

hunk_run :
    (source front : List Text) (h : Hunk) (digits : List ℕ) (rest r : List Text) (c : ℕ)
    → source ≡ front ++ (h.gap ++ (old_lines h.edits ++ rest))
    → c ≡ length front
    → int_of digits ≡ some (suc (c + length h.gap))
    → run_hunk source digits (map render_edit h.edits) (place r c)
      ≡ some (
          place ((r ++ h.gap) ++ new_lines h.edits) (c + length h.gap + length (old_lines h.edits)))
unfolding run_hunk
hunk_run source front h digits rest r c e k v =
    rw (v, run_hunk)
      (rw (gap_copied source front h.gap (old_lines h.edits ++ rest) r c e k) (
        edits_run source (front ++ h.gap) h.edits rest (r ++ h.gap) (c + length h.gap)
          (e ∙ sym (append_assoc front h.gap (old_lines h.edits ++ rest)))
          (omega (arith, length-append front h.gap))))

-- A range line whose hunk runs moves the loop to where the hunk ends.
hunk_step :
    (source chunk : List Text) (line : Text) (rest : List Text) (r : Rebuild) (ds : List ℕ)
    (p : Place)
    → is_range line ≡ true
    → text_eq (strip line) (codes "@@") ≡ false
    → match_hunk line ≡ some ds
    → run_hunk source ds (body_of rest) (place_of source r) ≡ some p
    → hunk_loop source chunk (line ∷ rest) r ≡ hunk_loop source chunk rest (move_to source p r)
unfolding hunk_loop
hunk_step source chunk line rest r ds p opens ranged matched run =
    rw (opens, hunk_loop) (rw (ranged, hunk_loop) (rw (matched, hunk_loop) (rw run)))

or_true : (b : Bool) → (b || true) ≡ true
or_true true = refl
or_true false = refl

-- What the loop leaves behind: the rebuilt lines with the rest of the source are the new file, and
-- no reason to take the diff whole has come up.
pub record Finished (source : List Text) (hs : List Hunk) (tail built : List Text) (r r' : Rebuild)
    : Type 0 where
  pub text : r'.rebuilt ++ slice_from source r'.cursor ≡ built ++ after hs tail
  pub reason : r'.fallback_reason ≡ r.fallback_reason
  pub mode : r'.effective_mode ≡ r.effective_mode
  pub handled : r'.handled_hunk ≡ (not (is_empty hs) || r.handled_hunk)

pub hunk_loop-Finished :
    (source chunk front : List Text) (hs : List Hunk) (tail built : List Text) (c : ℕ) (r : Rebuild)
    → source ≡ front ++ before hs tail
    → c ≡ length front
    → Placed c hs
    → Finished source hs tail built r (hunk_loop source chunk (render hs) (at r built c))
unfolding hunk_loop
hunk_loop-Finished source chunk front [] tail built c r e k p = record {
  text = ap (λ t. built ++ t) (rw (e, k) (drop-length-append front tail));
  reason = refl;
  mode = refl;
  handled = refl;
}
hunk_loop-Finished source chunk front (h ∷ hs) tail built c r e k (here, p) =
    let ran : run_hunk source here.digits (body_of (map render_edit h.edits ++ render hs))
          (place built c)
        ≡ some (
            place ((built ++ h.gap) ++ new_lines h.edits)
              (c + length h.gap + length (old_lines h.edits))) =
      rw (body_of-render h.edits hs _ p)
        (hunk_run source front h here.digits (before hs tail) built c e k here.value) in
    let front' = front ++ (h.gap ++ old_lines h.edits) in
    let e' : source ≡ front' ++ before hs tail = e ∙ sym (rw append_assoc (rw append_assoc refl)) in
    let k' : c + length h.gap + length (old_lines h.edits) ≡ length front' = omega (
      arith,
      length-append front (h.gap ++ old_lines h.edits),
      length-append h.gap (old_lines h.edits),
    ) in
    let ih =
      hunk_loop-Finished source chunk front' hs tail ((built ++ h.gap) ++ new_lines h.edits)
        (c + length h.gap + length (old_lines h.edits)) (record r { handled_hunk = true }) e' k'
        p in
    rw
      (
        hunk_step source chunk h.range (map render_edit h.edits ++ render hs) (at r built c)
            here.digits _ here.opens here.ranged here.matched ran,
        hunk_loop-skip,
      )
      (record {
        text = ih.text ∙ simp append_assoc;
        reason = ih.reason;
        mode = ih.mode;
        handled = ih.handled ∙ or_true (not (is_empty hs));
      })
