-- ===== src/Rag/Unembedded.antt =====
-- backend/rag/tasks/crawl.py: what becomes of the embeddings of a crawl that makes them itself.
use feature_frontend.Prelude.{
  keep_if, ◌≡◌, refl, false, Option, none, some, List, [], ◌∷◌, Bool-cases, inl, inr,
}
use feature_frontend.Prelude.Text.{Text, text_eq}
use feature_frontend.Auth.Database.{first_where}
use feature_frontend.Rag.Pages.{Page}
use feature_frontend.Rag.Store.{
  Website, Corpus, Crawling, OneOrNone, no_row, several, one_row, one_or_none, Crawled, stored,
  raised, unless_raised, end_crawl, is_page, hash_is, trigger, store_found, store_page, store_pages,
  pages_of, crawl_found, crawl_website,
}

module _ (k : Crawling) where
  module _ (inline : k.use_celery_embeddings ≡ false) (website_id : Text) where
    -- Nothing is saved yet, and these are the embeddings.
    abbrev Bare : List (Text × Text) → Corpus → Type 0
    Bare e c = (c.saved ≡ []) × (c.embedded ≡ e)

    abbrev StaysBare : List (Text × Text) → Crawled → Type 0
    StaysBare e (stored c) = Bare e c
    StaysBare e (raised c) = Bare e c

    trigger-Bare :
        (e : List (Text × Text)) (id : Text) (c : Corpus) → Bare e c → Bare e (trigger k id c)
    trigger-Bare e id c (empty, same) = rw inline (rw empty (refl, same))

    store_found-Bare :
        (e : List (Text × Text)) (p : Page) (c : Corpus) (row : OneOrNone)
        → Bare e c
        → StaysBare e (store_found k website_id p c row)
    store_found-Bare e p c no_row h = trigger-Bare e (k.uuid c.drawn) _ h
    store_found-Bare e p c several h = h
    store_found-Bare e p c (one_row row) h =
        elim (Bool-cases (hash_is row.content_hash p.content_hash)) [
          | inl same ↦ rw same h
          | inr changed ↦ rw changed (trigger-Bare e row.id _ h)
        ]

    unless_raised-Bare :
        (e : List (Text × Text)) (r : Crawled) (f : Corpus → Crawled)
        → StaysBare e r
        → ((c : Corpus) → Bare e c → StaysBare e (f c))
        → StaysBare e (unless_raised k r f)
    unless_raised-Bare e (stored c) f h next = next c h
    unless_raised-Bare e (raised c) f h next = h

    store_pages-Bare :
        (e : List (Text × Text)) (ps : List Page) (c : Corpus)
        → Bare e c
        → StaysBare e (store_pages k website_id ps c)
    store_pages-Bare e [] c h = h
    store_pages-Bare e (p ∷ ps) c h =
        unless_raised-Bare e (store_page k website_id p c) (store_pages k website_id ps)
          (store_found-Bare e p c (one_or_none (keep_if (is_page website_id p.url) c.now)) h)
          (λ c' h'. store_pages-Bare e ps c' h')

    end_crawl-embedded :
        (e : List (Text × Text)) (id : Text) (r : Crawled)
        → StaysBare e r
        → (end_crawl k id r).embedded ≡ e
    end_crawl-embedded e id (stored c) h = h.1
    end_crawl-embedded e id (raised c) h = h.1

  crawl_found-embedded :
      (c : Corpus) (w : Option Website)
      → k.use_celery_embeddings ≡ false
      → c.saved ≡ []
      → (crawl_found k c w).embedded ≡ c.embedded
  crawl_found-embedded c none inline empty = refl
  crawl_found-embedded c (some w) inline empty =
      end_crawl-embedded inline w.id c.embedded w.id _
        (store_pages-Bare inline w.id c.embedded (pages_of k w) _ (empty, refl))

  -- A crawl that makes the embeddings itself, where no page is saved yet, leaves no embedding of
  -- the pages that it stores: each is looked for in a session that does not see it.
  pub crawl_website-unembedded :
      (website_id : Text) (c : Corpus)
      → k.use_celery_embeddings ≡ false
      → c.saved ≡ []
      → (crawl_website k website_id c).embedded ≡ c.embedded
  crawl_website-unembedded website_id c inline empty =
      crawl_found-embedded (record c { now = c.saved })
        (first_where (λ w. text_eq w.id website_id) c.websites) inline empty
