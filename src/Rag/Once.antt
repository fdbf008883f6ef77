-- ===== src/Rag/Once.antt =====
-- backend/rag/crawler/service.py: how many pages a crawl gives, and that it ends.
use feature_frontend.Prelude.{
  ℕ, zero, suc, ◌≤◌, ◌<◌, ◌≡◌, refl, ap, ◌∙◌, sym, arith, Bool, true, false, ◌||◌, Option, none,
  some, List, [], ◌∷◌, ◌++◌, length, length-append, Bool-cases, inl, inr, All, ltb→lt,
}
use mathlib.Core.Path.{subst}
use mathlib.Core.Option.{some-injective}
use feature_frontend.Prelude.Text.{Text, text_eq, text_eq_iff, text_eq_refl}
use feature_frontend.Rag.Pages.{Site, Page, Soup, crawl_page, page_from}
use feature_frontend.Rag.Crawler.{
  Crawl, mem, keep_page, pass_from, pass, goes_on, goes_on_with, crawl_loop, begin_at, crawl,
}
use feature_frontend.Rag.Queue.{mem-append, or_right, All-append, text_eq_sym}

abbrev pub urls : List Page → List Text
urls [] = []
urls (p ∷ ps) = p.url ∷ urls ps

pub urls-append : (ps qs : List Page) → urls (ps ++ qs) ≡ urls ps ++ urls qs
urls-append [] qs = refl
urls-append (p ∷ ps) qs = ap (◌∷◌ p.url) (urls-append ps qs)

abbrev pub Distinct : List Text → Type 0
Distinct [] = Unit
Distinct (x ∷ xs) = (mem x xs ≡ false) × Distinct xs

or_false_left : (a b : Bool) → a || b ≡ false → a ≡ false
or_false_left a b h = ground arith

or_false_right : (a b : Bool) → a || b ≡ false → b ≡ false
or_false_right a b h = ground arith

both_false : (a b : Bool) → a ≡ false → b ≡ false → a || b ≡ false
both_false a b h k = ground arith

Distinct-snoc :
    (xs : List Text) (x : Text) → Distinct xs → mem x xs ≡ false → Distinct (xs ++ x ∷ [])
Distinct-snoc [] x h new = (refl, tt)
Distinct-snoc (y ∷ ys) x (first, others) new =
    let other : text_eq y x ≡ false = text_eq_sym y x ∙ or_false_left _ _ new in
    (
      mem-append y ys (x ∷ []) ∙ both_false _ _ first (both_false _ _ other refl),
      Distinct-snoc ys x others (or_false_right _ _ new),
    )

pub mem-All :
    (P : Text → Type 0) (url : Text) (xs : List Text) → All P xs → mem url xs ≡ true → P url
mem-All P url [] h m = absurd (cc)
mem-All P url (x ∷ xs) (this, others) m = elim (Bool-cases (text_eq url x)) [
  | inl same ↦ subst P (sym ((text_eq_iff url x).0 same)) this
  | inr other ↦ mem-All P url xs others (sym (rw other refl) ∙ m)
]

module _ (site : Site) where
  page_from-url :
      (url : Text) (s : Option Soup) (p : Page) → page_from site url s ≡ some p → p.url ≡ url
  page_from-url url none p h = absurd (cc)
  page_from-url url (some soup) p h = ap (λ (q : Page). q.url) (sym (some-injective _ p h))

  pub crawl_page-url : (url : Text) (p : Page) → crawl_page site url ≡ some p → p.url ≡ url
  unfolding crawl_page
  crawl_page-url url p h = page_from-url url (site.fetch url) p h

  pub crawl_loop-inv :
      (P : Crawl → Type 0)
      → ((c : Crawl) → goes_on site c ≡ true → P c → P (pass site c))
      → (n : ℕ) (c : Crawl) → P c
      → P (crawl_loop site n c)
  crawl_loop-inv P keep zero c h = h
  crawl_loop-inv P keep (suc n) c h = elim (Bool-cases (goes_on site c)) [
    | inl on ↦ rw (crawl_loop, on) (crawl_loop-inv P keep n (pass site c) (keep c on h))
    | inr off ↦ rw (crawl_loop, off) h
  ]

  some_wanted :
      (queue : List Text) (c : Crawl)
      → goes_on_with site queue c ≡ true
      → length c.results < site.max_pages
  some_wanted [] c on = absurd (cc)
  some_wanted (url ∷ queue) c on = ltb→lt (length c.results) site.max_pages on

  more_wanted : (c : Crawl) → goes_on site c ≡ true → length c.results < site.max_pages
  more_wanted c on = some_wanted c.to_visit c on

  kept_few :
      (visited queue : List Text) (results : List Page) (p : Option Page)
      → length results < site.max_pages
      → length (keep_page site visited queue results p).results ≤ site.max_pages
  kept_few visited queue results none few = omega arith
  kept_few visited queue results (some p) few = omega (arith, length-append results (p ∷ []))

  pass_few :
      (queue : List Text) (c : Crawl)
      → length c.results < site.max_pages
      → length (pass_from site queue c).results ≤ site.max_pages
  pass_few [] c few = omega arith
  pass_few (url ∷ queue) c few = elim (Bool-cases (mem url c.visited)) [
    | inl before ↦ rw before (omega arith)
    | inr new ↦ rw new (kept_few (url ∷ c.visited) queue c.results (crawl_page site url) few)
  ]

  -- A crawl gives at most `max_pages` pages.
  pub crawl-few :
      (fuel : ℕ) (start_url : Text) → length (crawl site fuel start_url).results ≤ site.max_pages
  unfolding crawl
  crawl-few fuel start_url =
      crawl_loop-inv (λ c. length c.results ≤ site.max_pages)
        (λ c on h. pass_few c.to_visit c (more_wanted c on)) fuel (begin_at site start_url)
        (omega arith)

  -- The pages are of different URLs, and each of these was visited.
  abbrev Once : Crawl → Type 0
  Once c = Distinct (urls c.results) × All (λ url. mem url c.visited ≡ true) (urls c.results)

  seen_still :
      (url : Text) (visited xs : List Text)
      → All (λ u. mem u visited ≡ true) xs
      → All (λ u. mem u (url ∷ visited) ≡ true) xs
  seen_still url visited [] h = tt
  seen_still url visited (x ∷ xs) (this, others) =
      (or_right _ _ this, seen_still url visited xs others)

  unseen :
      (url : Text) (visited xs : List Text)
      → All (λ u. mem u visited ≡ true) xs
      → mem url visited ≡ false
      → mem url xs ≡ false
  unseen url visited xs h new = elim (Bool-cases (mem url xs)) [
    | inl there ↦ absurd (cc (mem-All (λ u. mem u visited ≡ true) url xs h there))
    | inr not_there ↦ not_there
  ]

  kept_Once :
      (url : Text) (queue : List Text) (c : Crawl) (p : Option Page)
      → ((q : Page) → p ≡ some q → q.url ≡ url)
      → mem url c.visited ≡ false
      → Once c
      → Once (keep_page site (url ∷ c.visited) queue c.results p)
  kept_Once url queue c none named new (distinct, seen) =
      (distinct, seen_still url c.visited (urls c.results) seen)
  kept_Once url queue c (some p) named new (distinct, seen) =
      let same : p.url ≡ url = named p refl in
      let grown : urls (c.results ++ p ∷ []) ≡ urls c.results ++ url ∷ [] =
        urls-append c.results (p ∷ []) ∙ ap (λ u. urls c.results ++ u ∷ []) same in
      let here : mem url (url ∷ c.visited) ≡ true = rw (text_eq_refl url) refl in
      (
        subst Distinct (sym grown) (
            Distinct-snoc (urls c.results) url distinct
              (unseen url c.visited (urls c.results) seen new)),
        subst (All (λ u. mem u (url ∷ c.visited) ≡ true)) (sym grown) (
            All-append (λ u. mem u (url ∷ c.visited) ≡ true) (urls c.results) (url ∷ [])
              (seen_still url c.visited (urls c.results) seen) (here, tt)),
      )

  pass_Once : (queue : List Text) (c : Crawl) → Once c → Once (pass_from site queue c)
  pass_Once [] c h = h
  pass_Once (url ∷ queue) c h = elim (Bool-cases (mem url c.visited)) [
    | inl before ↦ rw before h
    | inr new ↦ rw new (kept_Once url queue c (crawl_page site url) (crawl_page-url url) new h)
  ]

  -- No URL gives two pages of a crawl, however the pages of the site link to each other.
  pub crawl-Distinct :
      (fuel : ℕ) (start_url : Text) → Distinct (urls (crawl site fuel start_url).results)
  unfolding crawl
  crawl-Distinct fuel start_url =
      (crawl_loop-inv Once (λ c on h. pass_Once c.to_visit c h) fuel (begin_at site start_url)
        (tt, tt)).0
