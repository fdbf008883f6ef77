-- ===== src/Rag/Crawler.antt =====
-- backend/rag/crawler/service.py: the loop of `crawl`.
use feature_frontend.Prelude.{
  ℕ, zero, suc, Bool, true, false, ◌||◌, Option, none, some, List, [], ◌∷◌, ◌++◌, any, length, ltb,
  if◌then◌else◌,
}
use feature_frontend.Prelude.Text.{Text, text_eq}
use feature_frontend.Rag.Pages.{Site, Page, clean_url, crawl_page}

pub record Crawl : Type 0 where
  pub visited : List Text
  pub to_visit : List Text
  pub results : List Page

-- `url in urls`
abbrev pub mem : Text → List Text → Bool
mem url urls = any (text_eq url) urls

-- New links go to the end of the queue.
abbrev pub add_links : (visited : List Text) → (links : List Text) → (queue : List Text) → List Text
add_links visited [] queue = queue
add_links visited (link ∷ links) queue = add_links visited links (
    if mem (clean_url link) visited || mem (clean_url link) queue
    then queue
    else queue ++ clean_url link ∷ [])

module _ (site : Site) where
  abbrev pub keep_page : List Text → List Text → List Page → Option Page → Crawl
  keep_page visited queue results none = record {
    visited = visited;
    to_visit = queue;
    results = results;
  }
  keep_page visited queue results (some page) = record {
    visited = visited;
    to_visit = add_links visited page.links queue;
    results = results ++ page ∷ [];
  }

  -- A pass of the loop, with the first URL of the queue and the others.
  abbrev pub visit : Text → List Text → Crawl → Crawl
  visit url queue c =
      if mem url c.visited
      then record c { to_visit = queue }
      else keep_page (url ∷ c.visited) queue c.results (crawl_page site url)

  abbrev pub pass_from : List Text → Crawl → Crawl
  pass_from [] c = c
  pass_from (url ∷ queue) c = visit url queue c

  abbrev pub pass : Crawl → Crawl
  pass c = pass_from c.to_visit c

  -- `while to_visit and len(results) < self.max_pages`
  abbrev pub goes_on_with : List Text → Crawl → Bool
  goes_on_with [] c = false
  goes_on_with (url ∷ queue) c = ltb (length c.results) site.max_pages

  abbrev pub goes_on : Crawl → Bool
  goes_on c = goes_on_with c.to_visit c

  abbrev pub crawl_loop : (fuel : ℕ) → Crawl → Crawl
  crawl_loop zero c = c
  crawl_loop (suc n) c = elim (goes_on c) [ true ↦ crawl_loop n (pass c) | false ↦ c ]

  abbrev pub begin_at : Text → Crawl
  begin_at start_url = record { visited = []; to_visit = clean_url start_url ∷ []; results = [] }

  unfoldable pub crawl : (fuel : ℕ) → (start_url : Text) → Crawl
  crawl fuel start_url = crawl_loop fuel (begin_at start_url)
