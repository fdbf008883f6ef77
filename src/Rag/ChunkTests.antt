-- ===== src/Rag/ChunkTests.antt =====
-- backend/rag/embeddings/service.py on a short text, whose tokens are its characters.
use feature_frontend.Prelude.{ℕ, ◌≡◌, refl, List, [], ◌∷◌, All, map, length, arith}
use feature_frontend.Prelude.Text.{Text, codes}
use feature_frontend.Rag.Chunks.{Embedder, chunk_text, embed_page}
use feature_frontend.Rag.ChunkLaws.{joined, AtMost, embed_page-joined}

abbrev embedder : Embedder ℕ
embedder = record {
  chunk_size = 4;
  chunk_overlap = 1;
  encode = λ s. s;
  decode = λ s. s;
  generate_embeddings = map length;
}

three_chunks :
    chunk_text embedder 9 (codes "feature!") ≡ codes "feat" ∷ codes "ture" ∷ codes "e!" ∷ []
unfolding chunk_text
three_chunks = refl

-- A text of the size of a chunk has a second chunk, of what overlaps.
last_is_shared : chunk_text embedder 9 (codes "feat") ≡ codes "feat" ∷ codes "t" ∷ []
unfolding chunk_text
last_is_shared = refl

embed_page-joined_example :
    (ps : List (List ℕ)) × (map
        (λ e. e.text)
        (embed_page embedder 9 (codes "feature!") (codes "p") (codes "w") (codes "u"))
      ≡ map (λ s. s) ps)
    × All (AtMost embedder 4) ps
    × (joined 1 ps ≡ codes "feature!")
embed_page-joined_example =
    embed_page-joined embedder 9 (codes "feature!") (codes "p") (codes "w") (codes "u")
      (omega arith) (omega arith) answers
  where
    answers : (texts : List Text) → length (embedder.generate_embeddings texts) ≡ length texts
    answers [] = refl
    answers (t ∷ texts) = omega (arith, answers texts)
