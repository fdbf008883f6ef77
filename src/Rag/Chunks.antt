-- ===== src/Rag/Chunks.antt =====
-- backend/rag/embeddings/service.py: the chunks of a text, and the embeddings of a page.
use feature_frontend.Prelude.{
  ℕ, zero, suc, ◌+◌, ◌-◌, true, false, List, [], ◌∷◌, length, take, drop, ltb,
}
use feature_frontend.Prelude.Text.{Text}

-- What the service is made with; `encode` and `decode` are those of the tokenizer.
pub record Embedder (Vector : Type 0) : Type 0 where
  pub chunk_size : ℕ
  pub chunk_overlap : ℕ
  pub encode : Text → List ℕ
  pub decode : List ℕ → Text
  pub generate_embeddings : List Text → List Vector

pub record Embedding (Vector : Type 0) : Type 0 where
  pub chunk_index : ℕ
  pub text : Text
  pub embedding : Vector
  pub page_id : Text
  pub website_id : Text
  pub page_url : Text
  pub total_chunks : ℕ

module _ {Vector : Type 0} (m : Embedder Vector) where
  -- The loop, from a start that no overlap brings below 0.
  abbrev pub chunk_loop : (fuel start : ℕ) → List ℕ → List Text
  chunk_loop zero start tokens = []
  chunk_loop (suc fuel) start tokens =
      let end = start + m.chunk_size in
      elim (ltb start (length tokens)) [
        | true ↦
            m.decode (take m.chunk_size (drop start tokens))
            ∷ chunk_loop fuel (end - m.chunk_overlap) tokens
        | false ↦ []
      ]

  unfoldable pub chunk_text : (fuel : ℕ) → Text → List Text
  chunk_text fuel text = chunk_loop fuel 0 (m.encode text)

  -- `enumerate(zip(chunks, embeddings))`, from an index.
  abbrev pub combine :
      (page_id website_id page_url : Text) (total i : ℕ)
      → List Text
      → List Vector
      → List (Embedding Vector)
  combine page_id website_id page_url total i [] vs = []
  combine page_id website_id page_url total i (chunk ∷ cs) [] = []
  combine page_id website_id page_url total i (chunk ∷ cs) (v ∷ vs) =
      record {
        chunk_index = i;
        text = chunk;
        embedding = v;
        page_id = page_id;
        website_id = website_id;
        page_url = page_url;
        total_chunks = total;
      }
      ∷ combine page_id website_id page_url total (suc i) cs vs

  unfoldable pub embed_page :
      (fuel : ℕ) (content page_id website_id page_url : Text) → List (Embedding Vector)
  embed_page fuel content page_id website_id page_url =
      let chunks = chunk_text fuel content in
      combine page_id website_id page_url (length chunks) 0 chunks (m.generate_embeddings chunks)
