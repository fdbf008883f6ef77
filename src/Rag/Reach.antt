-- ===== src/Rag/Reach.antt =====
-- backend/rag/crawler/service.py: every page of a crawl is one that links lead to.
use feature_frontend.Prelude.{
  ℕ, ◌≡◌, refl, sym, true, Option, none, some, List, [], ◌∷◌, Bool-cases, inl, inr, All,
}
use mathlib.Core.Path.{subst}
use feature_frontend.Prelude.Text.{Text, text_eq, text_eq_refl}
use feature_frontend.Rag.Pages.{Site, Page, clean_url, crawl_page}
use feature_frontend.Rag.Crawler.{Crawl, mem, keep_page, pass_from, begin_at, crawl}
use feature_frontend.Rag.Queue.{or_right, All-append, add_links-All}
use feature_frontend.Rag.Once.{urls, urls-append, crawl_page-url, crawl_loop-inv}

-- The URLs that links lead to from the first one: the description that the crawler is held against.
pub data Reachable (site : Site) (start_url : Text) : Text → Type 0 where
  first : Reachable site start_url (clean_url start_url)
  by_link :
      {url : Text} (p : Page) (link : Text)
      → Reachable site start_url url
      → crawl_page site url ≡ some p
      → mem link p.links ≡ true
      → Reachable site start_url (clean_url link)

All-mem : (P : Text → Type 0) (xs : List Text) → ((x : Text) → mem x xs ≡ true → P x) → All P xs
All-mem P [] h = tt
All-mem P (x ∷ xs) h = (
  h x (rw (text_eq_refl x) refl),
  All-mem P xs (λ y m. h y (or_right (text_eq y x) (mem y xs) m)),
)

module _ (site : Site) (start_url : Text) where
  abbrev Leads : Text → Type 0
  Leads = Reachable site start_url

  -- Every URL in the queue and every page is reachable.
  abbrev Sound : Crawl → Type 0
  Sound c = All Leads c.to_visit × All Leads (urls c.results)

  kept_Sound :
      (url : Text) (queue : List Text) (c : Crawl) (p : Option Page)
      → crawl_page site url ≡ p
      → Leads url
      → All Leads queue
      → All Leads (urls c.results)
      → Sound (keep_page site (url ∷ c.visited) queue c.results p)
  kept_Sound url queue c none got here ahead behind = (ahead, behind)
  kept_Sound url queue c (some p) got here ahead behind = (
    add_links-All (url ∷ c.visited) Leads p.links queue ahead
        (All-mem (λ link. Leads (clean_url link)) p.links (λ link m. by_link p link here got m)),
    subst (All Leads) (sym (urls-append c.results (p ∷ []))) (
        All-append Leads (urls c.results) (p.url ∷ []) behind
          (subst Leads (sym (crawl_page-url site url p got)) here, tt)),
  )

  pass_Sound :
      (queue : List Text) (c : Crawl)
      → All Leads queue
      → All Leads (urls c.results)
      → Sound c
      → Sound (pass_from site queue c)
  pass_Sound [] c ahead behind h = h
  pass_Sound (url ∷ queue) c (here, ahead) behind h = elim (Bool-cases (mem url c.visited)) [
    | inl before ↦ rw before (ahead, behind)
    | inr new ↦ rw new (kept_Sound url queue c (crawl_page site url) refl here ahead behind)
  ]

  pub all_Sound : (fuel : ℕ) → Sound (crawl site fuel start_url)
  unfolding crawl
  all_Sound fuel =
      crawl_loop-inv site Sound (λ c on h. pass_Sound c.to_visit c h.0 h.1 h) fuel
        (begin_at site start_url) ((first, tt), tt)
