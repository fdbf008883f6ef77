-- ===== src/Rag/ChunkLaws.antt =====
-- backend/rag/embeddings/service.py: the chunks of a page have all of its tokens.
use feature_frontend.Prelude.{
  ℕ, zero, suc, ◌+◌, ◌-◌, ◌≤◌, ◌<◌, ◌≡◌, refl, ap, ◌∙◌, sym, true, false, List, [], ◌∷◌, ◌++◌,
  length, take, drop, All, map, ltb, arith, Bool-cases, inl, inr, drop-beyond, drop_add, take-drop,
  length-take,
}
use feature_frontend.Prelude.Text.{Text}
use feature_frontend.Rag.Chunks.{Embedder, chunk_loop, chunk_text, combine, embed_page}

-- Chunks put together, each without the tokens that it shares with the one before it.
abbrev joined_after : ℕ → List (List ℕ) → List ℕ
joined_after overlap [] = []
joined_after overlap (p ∷ ps) = drop overlap p ++ joined_after overlap ps

abbrev pub joined : ℕ → List (List ℕ) → List ℕ
joined overlap [] = []
joined overlap (p ∷ ps) = p ++ joined_after overlap ps

drop-take-drop : (o n : ℕ) (xs : List ℕ) → o ≤ n → drop o (take n xs) ++ drop n xs ≡ drop o xs
drop-take-drop zero n xs h = take-drop n xs
drop-take-drop (suc o) zero xs h = absurd (omega (arith, h))
drop-take-drop (suc o) (suc n) [] h = refl
drop-take-drop (suc o) (suc n) (x ∷ xs) h = drop-take-drop o n xs (omega (arith, h))

module _ {Vector : Type 0} (m : Embedder Vector) where
  abbrev pub AtMost : ℕ → List ℕ → Type 0
  AtMost n p = length p ≤ n

  -- The chunks of the loop from a start, as tokens.
  abbrev Pieces : List Text → (start : ℕ) → List ℕ → List (List ℕ) → Type 0
  Pieces texts start tokens ps =
      (texts ≡ map m.decode ps)
      × All (AtMost m.chunk_size) ps
      × (joined_after m.chunk_overlap ps ≡ drop (start + m.chunk_overlap) tokens)
      × (joined m.chunk_overlap ps ≡ drop start tokens)

  chunk_loop-more :
      (fuel start : ℕ) (tokens : List ℕ)
      → ltb start (length tokens) ≡ true
      → chunk_loop m (suc fuel) start tokens
        ≡ m.decode (take m.chunk_size (drop start tokens))
          ∷ chunk_loop m fuel (start + m.chunk_size - m.chunk_overlap) tokens
  chunk_loop-more fuel start tokens more = rw (more, chunk_loop) refl

  chunk_loop-over :
      (fuel start : ℕ) (tokens : List ℕ)
      → ltb start (length tokens) ≡ false
      → chunk_loop m (suc fuel) start tokens ≡ []
  chunk_loop-over fuel start tokens over = rw (over, chunk_loop) refl

  chunk_loop-Pieces :
      (fuel start : ℕ) (tokens : List ℕ)
      → m.chunk_overlap < m.chunk_size
      → length tokens < fuel + start
      → (ps : List (List ℕ)) × Pieces (chunk_loop m fuel start tokens) start tokens ps
  chunk_loop-Pieces zero start tokens h enough = (
    [],
    (
      refl,
      tt,
      sym (drop-beyond _ tokens (omega (arith, enough))),
      sym (drop-beyond _ tokens (omega (arith, enough))),
    ),
  )
  chunk_loop-Pieces (suc fuel) start tokens h enough =
      elim (Bool-cases (ltb start (length tokens))) [
        | inl more ↦
            let end = start + m.chunk_size in
            let xs = drop start tokens in
            let piece = take m.chunk_size xs in
            let (ps, (same, small, after, whole)) =
              chunk_loop-Pieces fuel (end - m.chunk_overlap) tokens h (omega (arith, h, enough)) in
            let back : (end - m.chunk_overlap) + m.chunk_overlap ≡ end = omega (arith, h) in
            let rest : joined_after m.chunk_overlap ps ≡ drop m.chunk_size xs =
              after ∙ ap (λ k. drop k tokens) back ∙ drop_add start m.chunk_size tokens in
            (
              piece ∷ ps,
              (
                chunk_loop-more fuel start tokens more ∙ ap (◌∷◌ (m.decode piece)) same,
                (omega (arith, length-take m.chunk_size xs), small),
                ap (λ t. drop m.chunk_overlap piece ++ t) rest
                    ∙ drop-take-drop m.chunk_overlap m.chunk_size xs (omega (arith, h))
                    ∙ sym (drop_add start m.chunk_overlap tokens),
                ap (λ t. piece ++ t) rest ∙ take-drop m.chunk_size xs,
              ),
            )
        | inr over ↦
            let ended : length tokens ≤ start = ground arith in
            (
              [],
              (
                chunk_loop-over fuel start tokens over,
                tt,
                sym (drop-beyond _ tokens (omega (arith, ended))),
                sym (drop-beyond _ tokens ended),
              ),
            )
      ]

  combine-text :
      (a b c : Text) (total i : ℕ) (cs : List Text) (vs : List Vector)
      → length vs ≡ length cs
      → map (λ e. e.text) (combine m a b c total i cs vs) ≡ cs
  combine-text a b c total i [] vs h = refl
  combine-text a b c total i (t ∷ cs) [] h = absurd (omega (arith, h))
  combine-text a b c total i (t ∷ cs) (v ∷ vs) h =
      ap (◌∷◌ t) (combine-text a b c total (suc i) cs vs (omega (arith, h)))

  -- Where the chunks overlap by less than their size, and a vector comes back for each text: the
  -- loop over the tokens of a page ends, the texts that are embedded are chunks of at most that
  -- size in the order of the page, and put together, each but the first without the tokens
  -- that it shares with the one before, they are all tokens of the page. One pass more than there
  -- are tokens is enough.
  pub embed_page-joined :
      (fuel : ℕ) (content page_id website_id page_url : Text)
      → m.chunk_overlap < m.chunk_size
      → length (m.encode content) < fuel
      → ((texts : List Text) → length (m.generate_embeddings texts) ≡ length texts)
      → (ps : List (List ℕ)) × (map
            (λ e. e.text)
            (embed_page m fuel content page_id website_id page_url)
          ≡ map m.decode ps)
        × All (AtMost m.chunk_size) ps
        × (joined m.chunk_overlap ps ≡ m.encode content)
  unfolding embed_page chunk_text
  embed_page-joined fuel content page_id website_id page_url h enough answers =
      let chunks = chunk_loop m fuel 0 (m.encode content) in
      let (ps, (same, small, after, whole)) =
        chunk_loop-Pieces fuel 0 (m.encode content) h (omega (arith, enough)) in
      (
        ps,
        combine-text page_id website_id page_url (length chunks) 0 chunks
              (m.generate_embeddings chunks) (answers chunks)
            ∙ same,
        small,
        whole,
      )
