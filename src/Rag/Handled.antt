-- ===== src/Rag/Handled.antt =====
-- backend/rag/crawler/service.py: what a crawl knows of the URLs that it visited.
use feature_frontend.Prelude.{
  ℕ, ◌≡◌, refl, ap, ◌∙◌, sym, true, false, Option, none, some, List, [], ◌∷◌, ◌++◌, Bool-cases, inl,
  inr, All,
}
use mathlib.Core.Path.{subst}
use feature_frontend.Prelude.Text.{Text, text_eq, text_eq_iff, text_eq_refl}
use feature_frontend.Rag.Pages.{Site, Page, clean_url, crawl_page}
use feature_frontend.Rag.Crawler.{Crawl, mem, keep_page, pass_from, begin_at, crawl}
use feature_frontend.Rag.Queue.{mem-append, or_right, add_links-mem, add_links-known, known}
use feature_frontend.Rag.Once.{urls, urls-append, crawl_page-url, crawl_loop-inv}

All-map : {P Q : Text → Type 0} → ((x : Text) → P x → Q x) → (xs : List Text) → All P xs → All Q xs
All-map f [] h = tt
All-map f (x ∷ xs) (this, others) = (f x this, All-map f xs others)

-- A URL that was taken care of stays so when the first of the queue is taken: it was visited
-- before, or it is visited now.
popped :
    (visited queue : List Text) (url u : Text)
    → mem url visited ≡ true
    → known visited u (url ∷ queue) ≡ true
    → known visited u queue ≡ true
popped visited queue url u before h = elim (Bool-cases (text_eq u url)) [
  | inl same ↦
      let e : mem u visited ≡ true =
        ap (λ x. mem x visited) ((text_eq_iff u url).0 same) ∙ before in
      rw e refl
  | inr other ↦ sym (rw other refl) ∙ h
]

moved :
    (visited queue later : List Text) (url u : Text)
    → (mem u queue ≡ true → mem u later ≡ true)
    → known visited u (url ∷ queue) ≡ true
    → known (url ∷ visited) u later ≡ true
moved visited queue later url u grows h = elim (Bool-cases (text_eq u url)) [
  | inl same ↦ rw same refl
  | inr other ↦ elim (Bool-cases (mem u visited)) [
    | inl before ↦ rw (other, before) refl
    | inr not_before ↦ or_right _ _ (grows (sym (rw (other, not_before) refl) ∙ h))
  ]
]

module _ (site : Site) (start_url : Text) where
  -- The links of a page, and the page itself, once its URL was visited.
  abbrev pub HandledPage : Crawl → Text → Option Page → Type 0
  HandledPage c url none = Unit
  HandledPage c url (some p) =
      (mem url (urls c.results) ≡ true)
      × All (λ link. known c.visited (clean_url link) c.to_visit ≡ true) p.links

  abbrev pub Handled : Crawl → Text → Type 0
  Handled c url = HandledPage c url (crawl_page site url)

  -- The first URL was taken care of, and every visited one handled.
  abbrev pub Complete : Crawl → Type 0
  Complete c = (known c.visited (clean_url start_url) c.to_visit ≡ true) × All (Handled c) c.visited

  HandledPage-grows :
      (c d : Crawl) (u : Text) (p : Option Page)
      → ((x : Text) → known c.visited x c.to_visit ≡ true → known d.visited x d.to_visit ≡ true)
      → (mem u (urls c.results) ≡ true → mem u (urls d.results) ≡ true)
      → HandledPage c u p
      → HandledPage d u p
  HandledPage-grows c d u none knows has h = tt
  HandledPage-grows c d u (some p) knows has (m, links) =
      (has m, All-map (λ link. knows (clean_url link)) p.links links)

  Handled-grows :
      (c d : Crawl) (xs : List Text)
      → ((x : Text) → known c.visited x c.to_visit ≡ true → known d.visited x d.to_visit ≡ true)
      → ((x : Text) → mem x (urls c.results) ≡ true → mem x (urls d.results) ≡ true)
      → All (Handled c) xs
      → All (Handled d) xs
  Handled-grows c d xs knows has h =
      All-map (λ x. HandledPage-grows c d x (crawl_page site x) knows (has x)) xs h

  -- The URL that is taken from the queue was visited, and is handled; the others are as before.
  taken_Complete :
      (c d : Crawl) (url : Text) (queue : List Text)
      → c.to_visit ≡ url ∷ queue
      → d.visited ≡ url ∷ c.visited
      → ((x : Text) → mem x queue ≡ true → mem x d.to_visit ≡ true)
      → ((x : Text) → mem x (urls c.results) ≡ true → mem x (urls d.results) ≡ true)
      → Handled d url
      → Complete c
      → Complete d
  taken_Complete c d url queue here visits grows has this (begun, done) =
      let knows : (x : Text)
          → known c.visited x c.to_visit ≡ true
          → known d.visited x d.to_visit ≡ true =
        λ x h.
          subst (λ v. known v x d.to_visit ≡ true) (sym visits)
            (moved c.visited queue d.to_visit url x (grows x)
              (subst (λ q. known c.visited x q ≡ true) here h)) in
      (
        knows (clean_url start_url) begun,
        subst (All (Handled d)) (sym visits) (this, Handled-grows c d c.visited knows has done),
      )

  Handled-is :
      (c : Crawl) (url : Text) (p : Option Page)
      → crawl_page site url ≡ p
      → HandledPage c url p
      → Handled c url
  Handled-is c url p got h = subst (HandledPage c url) (sym got) h

  has_page :
      (url : Text) (results : List Page) (p : Page)
      → p.url ≡ url
      → mem url (urls (results ++ p ∷ [])) ≡ true
  has_page url results p same =
      ap (mem url) (urls-append results (p ∷ []))
      ∙ mem-append url (urls results) (p.url ∷ [])
      ∙ or_right (mem url (urls results)) (mem url (p.url ∷ [])) (rw (same, text_eq_refl url) refl)

  has_still :
      (results : List Page) (p : Page) (x : Text)
      → mem x (urls results) ≡ true
      → mem x (urls (results ++ p ∷ [])) ≡ true
  has_still results p x h =
      ap (mem x) (urls-append results (p ∷ []))
      ∙ mem-append x (urls results) (p.url ∷ [])
      ∙ rw h refl

  kept_Complete :
      (url : Text) (queue : List Text) (c : Crawl) (p : Option Page)
      → crawl_page site url ≡ p
      → c.to_visit ≡ url ∷ queue
      → Complete c
      → Complete (keep_page site (url ∷ c.visited) queue c.results p)
  kept_Complete url queue c none got here h =
      let d = keep_page site (url ∷ c.visited) queue c.results none in
      taken_Complete c d url queue here refl (λ x m. m) (λ x m. m) (Handled-is d url none got tt) h
  kept_Complete url queue c (some p) got here h =
      let d = keep_page site (url ∷ c.visited) queue c.results (some p) in
      taken_Complete c d url queue here refl
        (λ x m. add_links-mem (url ∷ c.visited) p.links queue x m) (has_still c.results p)
        (Handled-is d url (some p) got (
          has_page url c.results p (crawl_page-url site url p got),
          add_links-known (url ∷ c.visited) p.links queue,
        ))
        h

  skipped_Complete :
      (url : Text) (queue : List Text) (c : Crawl)
      → mem url c.visited ≡ true
      → c.to_visit ≡ url ∷ queue
      → Complete c
      → Complete (record c { to_visit = queue })
  skipped_Complete url queue c before here (begun, done) =
      let knows : (x : Text)
          → known c.visited x c.to_visit ≡ true
          → known c.visited x queue ≡ true =
        λ x h.
          popped c.visited queue url x before (subst (λ q. known c.visited x q ≡ true) here h) in
      (
        knows (clean_url start_url) begun,
        Handled-grows c (record c { to_visit = queue }) c.visited knows (λ x m. m) done,
      )

  pass_Complete :
      (queue : List Text) (c : Crawl)
      → c.to_visit ≡ queue
      → Complete c
      → Complete (pass_from site queue c)
  pass_Complete [] c here h = h
  pass_Complete (url ∷ queue) c here h = elim (Bool-cases (mem url c.visited)) [
    | inl before ↦ rw before (skipped_Complete url queue c before here h)
    | inr new ↦ rw new (kept_Complete url queue c (crawl_page site url) refl here h)
  ]

  pub all_Complete : (fuel : ℕ) → Complete (crawl site fuel start_url)
  unfolding crawl
  all_Complete fuel =
      crawl_loop-inv site Complete (λ c on h. pass_Complete c.to_visit c refl h) fuel
        (begin_at site start_url)
        (or_right false _ (rw (text_eq_refl (clean_url start_url)) refl), tt)
