-- ===== src/Rag/Exact.antt =====
-- backend/rag/crawler/service.py: a crawl against the pages that links lead to.
use feature_frontend.Prelude.{
  ℕ, suc, ◌+◌, ◌*◌, ◌≤◌, ◌<◌, ◌≡◌, ◌↔◌, refl, ◌∙◌, sym, true, false, some, List, [], ◌∷◌, length,
  Bool-cases, inl, inr, All, lt→ltb,
}
use mathlib.Core.Path.{subst}
use feature_frontend.Prelude.Text.{Text}
use feature_frontend.Rag.Pages.{Site, Page, clean_url, crawl_page}
use feature_frontend.Rag.Crawler.{Crawl, mem, goes_on_with, crawl}
use feature_frontend.Rag.Queue.{known}
use feature_frontend.Rag.Once.{urls, mem-All}
use feature_frontend.Rag.Stops.{crawl-ends}
use feature_frontend.Rag.Reach.{Reachable, first, by_link, all_Sound}
use feature_frontend.Rag.Handled.{HandledPage, Handled, Complete, all_Complete}

module _ (site : Site) (start_url : Text) where
  visited_then :
      (visited : List Text) (url : Text) → known visited url [] ≡ true → mem url visited ≡ true
  visited_then visited url h = elim (Bool-cases (mem url visited)) [
    | inl before ↦ before
    | inr not_before ↦ sym (rw not_before refl) ∙ h
  ]

  linked :
      (c : Crawl) (url link : Text) (p : Page)
      → All (Handled site start_url c) c.visited
      → c.to_visit ≡ []
      → mem url c.visited ≡ true
      → crawl_page site url ≡ some p
      → mem link p.links ≡ true
      → mem (clean_url link) c.visited ≡ true
  linked c url link p done over before got m =
      let own : HandledPage site start_url c url (some p) =
        subst (HandledPage site start_url c url) got
          (mem-All (Handled site start_url c) url c.visited done before) in
      visited_then c.visited (clean_url link) (
        subst (λ q. known c.visited (clean_url link) q ≡ true) over
          (mem-All (λ link. known c.visited (clean_url link) c.to_visit ≡ true) link p.links own.1
            m))

  -- Where nothing is left to visit, every reachable URL was visited.
  reached :
      (c : Crawl) (url : Text)
      → Complete site start_url c
      → c.to_visit ≡ []
      → Reachable site start_url url
      → mem url c.visited ≡ true
  reached c url (begun, done) over first =
      visited_then c.visited (clean_url start_url)
        (subst (λ q. known c.visited (clean_url start_url) q ≡ true) over begun)
  reached c url (begun, done) over (by_link p link from got m) =
      linked c _ link p done over (reached c _ (begun, done) over from) got m

  listed :
      (c : Crawl) (url : Text) (p : Page)
      → Complete site start_url c
      → c.to_visit ≡ []
      → Reachable site start_url url
      → crawl_page site url ≡ some p
      → mem url (urls c.results) ≡ true
  listed c url p (begun, done) over leads got =
      let own : HandledPage site start_url c url (some p) =
        subst (HandledPage site start_url c url) got (
          mem-All (Handled site start_url c) url c.visited done
            (reached c url (begun, done) over leads)) in
      own.0

  nothing_left :
      (queue : List Text) (c : Crawl)
      → goes_on_with site queue c ≡ false
      → length c.results < site.max_pages
      → queue ≡ []
  nothing_left [] c off few = refl
  nothing_left (url ∷ queue) c off few = absurd (cc (lt→ltb (length c.results) site.max_pages few))

  -- On a site whose pages have at most `most_links` links each, a crawl that is given enough passes
  -- and stays under its number of pages has exactly the pages that links lead to: a URL behind
  -- which there is a page is among those of the results if and only if it is reachable.
  pub crawl-reaches :
      (most_links fuel : ℕ)
      → ((url : Text) (p : Page) → crawl_page site url ≡ some p → length p.links ≤ most_links)
      → 1 + site.max_pages * suc most_links ≤ fuel
      → length (crawl site fuel start_url).results < site.max_pages
      → (url : Text) (p : Page) → crawl_page site url ≡ some p
      → (mem url (urls (crawl site fuel start_url).results) ≡ true) ↔ Reachable site start_url url
  crawl-reaches most_links fuel few enough room url p got =
      let c = crawl site fuel start_url in
      let over : c.to_visit ≡ [] =
        nothing_left c.to_visit c (crawl-ends site most_links fuel start_url few enough) room in
      (
        mem-All (Reachable site start_url) url (urls c.results) (all_Sound site start_url fuel).1,
        λ leads. listed c url p (all_Complete site start_url fuel) over leads got,
      )
