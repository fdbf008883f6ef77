-- ===== src/Rag/Stops.antt =====
-- backend/rag/crawler/service.py: the loop of `crawl` comes to an end.
use feature_frontend.Prelude.{
  ℕ, zero, suc, ◌+◌, ◌-◌, ◌*◌, ◌≤◌, ◌<◌, ◌≡◌, refl, arith, true, false, Option, none, some, List,
  [], ◌∷◌, ◌++◌, length, length-append, Bool-cases, inl, inr, ltb→lt,
}
use native.Mathlib.Nat.{suc-mul}
use feature_frontend.Prelude.Text.{Text}
use feature_frontend.Rag.Pages.{Site, Page, crawl_page}
use feature_frontend.Rag.Crawler.{
  Crawl, mem, keep_page, visit, pass_from, pass, goes_on, goes_on_with, crawl_loop, begin_at, crawl,
}
use feature_frontend.Rag.Queue.{add_links-length}

-- A page more pays for the links that it adds.
one_less : (m k b : ℕ) → k < m → (m - k) * b ≡ (m - suc k) * b + b
one_less m k b h = let e : m - k ≡ suc (m - suc k) = omega arith in rw e (suc-mul (m - suc k) b)

module _ (site : Site) (most_links : ℕ) where
  -- What is in the queue, and may still come into it.
  abbrev ahead : ℕ → ℕ → ℕ
  ahead queue results = queue + (site.max_pages - results) * suc most_links

  abbrev ahead_of : Crawl → ℕ
  ahead_of c = ahead (length c.to_visit) (length c.results)

  kept_ahead :
      (visited queue : List Text) (results : List Page) (p : Option Page)
      → ((q : Page) → p ≡ some q → length q.links ≤ most_links)
      → length results < site.max_pages
      → ahead_of (keep_page site visited queue results p) ≤ ahead (length queue) (length results)
  kept_ahead visited queue results none few h = omega arith
  kept_ahead visited queue results (some p) few h =
      let longer : length (results ++ p ∷ []) ≡ suc (length results) =
        omega (arith, length-append results (p ∷ [])) in
      let queued = add_links-length visited p.links queue in
      let own = few p refl in
      rw longer
        (omega (arith, queued, own, one_less site.max_pages (length results) (suc most_links) h))

  pass_ahead :
      (url : Text) (queue : List Text) (c : Crawl)
      → ((url : Text) (p : Page) → crawl_page site url ≡ some p → length p.links ≤ most_links)
      → length c.results < site.max_pages
      → ahead_of (visit site url queue c) ≤ ahead (length queue) (length c.results)
  pass_ahead url queue c few h = elim (Bool-cases (mem url c.visited)) [
    | inl before ↦ rw before (omega arith)
    | inr new ↦
        rw new (kept_ahead (url ∷ c.visited) queue c.results (crawl_page site url) (few url) h)
  ]

  -- With nothing in the queue, or nothing wanted, the loop is over.
  step_ahead :
      (queue : List Text) (c : Crawl)
      → ((url : Text) (p : Page) → crawl_page site url ≡ some p → length p.links ≤ most_links)
      → goes_on_with site queue c ≡ true
      → ahead_of (pass_from site queue c) < ahead (length queue) (length c.results)
  step_ahead [] c few on = absurd (cc)
  step_ahead (url ∷ queue) c few on =
      omega (arith, pass_ahead url queue c few (ltb→lt (length c.results) site.max_pages on))

  none_ahead :
      (queue : List Text) (c : Crawl) → length queue ≤ 0 → goes_on_with site queue c ≡ false
  none_ahead [] c h = refl
  none_ahead (url ∷ queue) c h = absurd (omega (arith, h))

  crawl_loop-ends :
      (n : ℕ) (c : Crawl)
      → ((url : Text) (p : Page) → crawl_page site url ≡ some p → length p.links ≤ most_links)
      → ahead_of c ≤ n
      → goes_on site (crawl_loop site n c) ≡ false
  crawl_loop-ends zero c few h = none_ahead c.to_visit c (omega (arith, h))
  crawl_loop-ends (suc n) c few h = elim (Bool-cases (goes_on site c)) [
    | inl on ↦
        let less = step_ahead c.to_visit c few on in
        rw (crawl_loop, on) (crawl_loop-ends n (pass site c) few (omega (arith, less, h)))
    | inr off ↦ rw (crawl_loop, off) off
  ]

  begin_ahead : (fuel : ℕ) → 1 + site.max_pages * suc most_links ≤ fuel → ahead 1 0 ≤ fuel
  begin_ahead fuel enough = let e : site.max_pages - 0 ≡ site.max_pages = omega arith in rw e enough

  -- On a site whose pages have at most `most_links` links each, the loop is over after as many
  -- passes as `max_pages` times one more than that, and one: there is nothing left to visit, or
  -- enough pages.
  pub crawl-ends :
      (fuel : ℕ) (start_url : Text)
      → ((url : Text) (p : Page) → crawl_page site url ≡ some p → length p.links ≤ most_links)
      → 1 + site.max_pages * suc most_links ≤ fuel
      → goes_on site (crawl site fuel start_url) ≡ false
  unfolding crawl
  crawl-ends fuel start_url few enough =
      crawl_loop-ends fuel (begin_at site start_url) few (begin_ahead fuel enough)
