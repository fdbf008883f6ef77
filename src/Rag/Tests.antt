-- ===== src/Rag/Tests.antt =====
-- backend/rag/crawler/service.py on a site of three URLs, one of which cannot be fetched.
use feature_frontend.Prelude.{
  ◌≤◌, ◌<◌, ◌≡◌, ◌↔◌, refl, arith, Bool, true, false, Option, none, some, List, [], ◌∷◌, length,
  All,
}
use mathlib.Core.Path.{subst}
use mathlib.Core.Option.{some-injective}
use feature_frontend.Prelude.Text.{Text, codes, text_eq, splitlines, is_line_break, strip}
use feature_frontend.Rag.Pages.{
  Site, Page, Soup, clean_url, is_valid_url, extract_text, crawl_page, page_from,
}
use feature_frontend.Rag.Crawler.{mem, goes_on, crawl}
use feature_frontend.Rag.Once.{urls, Distinct, crawl-few, crawl-Distinct}
use feature_frontend.Rag.Stops.{crawl-ends}
use feature_frontend.Rag.Reach.{Reachable}
use feature_frontend.Auth.Database.{first_where}
use feature_frontend.Rag.Store.{
  Website, Corpus, Crawling, pending, error, new_page, crawl_website, pages_of,
}
use feature_frontend.Rag.StoreLaws.{Stored, crawl_website-Stored}
use feature_frontend.Rag.Unembedded.{crawl_website-unembedded}
use feature_frontend.Rag.Exact.{crawl-reaches}

abbrev soup : Text → List Text → Soup
soup text hrefs = record {
  text = text;
  title = none;
  description = none;
  headings = [];
  hrefs = hrefs;
}

abbrev fetched : Bool → Bool → Option Soup
fetched true b = some (
    soup (codes " one  two ")
      (codes "a/" ∷ codes "b" ∷ codes "b#x" ∷ codes "c" ∷ codes "d.pdf" ∷ []))
fetched false true = some (soup [] (codes "a" ∷ []))
fetched false false = none

-- The page at "a" links to itself, to "b" twice, and to "c", which fails.
abbrev site : Site
site = record {
  base_url = codes "a";
  max_pages = 3;
  netloc = λ url. codes "host";
  lower = λ url. url;
  sha256_hex = λ text. text;
  fetch = λ url. fetched (text_eq url (codes "a")) (text_eq url (codes "b"));
}

two_pages : urls (crawl site 16 (codes "a/")).results ≡ codes "a" ∷ codes "b" ∷ []
unfolding crawl crawl_page clean_url is_valid_url
two_pages = refl

no_pdf : is_valid_url site (codes "d.pdf") ≡ false
unfolding is_valid_url
no_pdf = refl

one_space : extract_text (soup (codes " one  two ") []) ≡ codes "one two"
unfolding extract_text splitlines is_line_break strip
one_space = refl

crawl-few_example : length (crawl site 16 (codes "a")).results ≤ 3
crawl-few_example = crawl-few site 16 (codes "a")

crawl-Distinct_example : Distinct (urls (crawl site 16 (codes "a")).results)
crawl-Distinct_example = crawl-Distinct site 16 (codes "a")

few_fetched :
    (x y : Bool) (url : Text) (p : Page)
    → page_from site url (fetched x y) ≡ some p
    → length p.links ≤ 4
unfolding clean_url is_valid_url
few_fetched true y url p h =
    subst (λ (q : Page). length q.links ≤ 4) (some-injective _ p h) (omega arith)
few_fetched false true url p h =
    subst (λ (q : Page). length q.links ≤ 4) (some-injective _ p h) (omega arith)
few_fetched false false url p h = absurd (cc)

few_links : (url : Text) (p : Page) → crawl_page site url ≡ some p → length p.links ≤ 4
unfolding crawl_page
few_links url p h = few_fetched (text_eq url (codes "a")) (text_eq url (codes "b")) url p h

crawl-ends_example : goes_on site (crawl site 16 (codes "a")) ≡ false
crawl-ends_example = crawl-ends site 4 16 (codes "a") few_links (omega arith)

-- What is behind "b".
abbrev page_b : Page
page_b = record {
  url = codes "b";
  title = none;
  content = [];
  description = none;
  headings = [];
  links = codes "a" ∷ [];
  content_hash = [];
}

under_limit : length (crawl site 16 (codes "a")).results < 3
unfolding crawl crawl_page clean_url is_valid_url extract_text
under_limit = omega arith

crawl-reaches_example :
    (mem (codes "b") (urls (crawl site 16 (codes "a")).results) ≡ true)
    ↔ Reachable site (codes "a") (codes "b")
unfolding crawl_page extract_text is_valid_url splitlines clean_url
crawl-reaches_example =
    crawl-reaches site (codes "a") 4 16 few_links (omega arith) under_limit (codes "b") page_b refl

abbrev website : Website
website = record {
  id = codes "w";
  url = codes "a";
  max_pages = 3;
  status = pending;
  last_crawled_at = none;
  pages_indexed = 0;
  crawl_error = none;
}

abbrev nothing_saved : Corpus
nothing_saved = record {
  websites = website ∷ [];
  now = [];
  saved = [];
  embedded = [];
  queued = [];
  drawn = 0;
}

abbrev crawling : (use_celery_embeddings : Bool) → Crawling
crawling use_celery_embeddings = record {
  use_celery_embeddings = use_celery_embeddings;
  uuid = λ n. n ∷ [];
  site_of = λ w. site;
  embeds = λ p. true;
  passes = 16;
  time = 7;
  several_rows = codes "several";
}

both_wait :
    (crawl_website (crawling true) (codes "w") nothing_saved).queued ≡ (0 ∷ []) ∷ (1 ∷ []) ∷ []
unfolding crawl crawl_page clean_url is_valid_url
both_wait = refl

crawl_website-Stored_example :
    All
      (Stored
        (crawling true)
        (codes "w")
        (crawl_website (crawling true) (codes "w") nothing_saved).saved)
      (pages_of (crawling true) website)
crawl_website-Stored_example =
    crawl_website-Stored (crawling true) (codes "w") nothing_saved website refl (λ url. omega arith)

-- Two rows of the first page: the crawl ends with the error, and adds no page.
abbrev saved_twice : Corpus
saved_twice =
    let row =
      λ (id : Text). new_page (crawling true) id (codes "w") (record page_b { url = codes "a" }) in
    record nothing_saved { saved = row (codes "1") ∷ row (codes "2") ∷ [] }

fails_twice :
    first_where
      (λ (w : Website). text_eq w.id (codes "w"))
      (crawl_website (crawling true) (codes "w") saved_twice).websites
    ≡ some (record website { status = error; crawl_error = some (codes "several") })
unfolding crawl crawl_page clean_url is_valid_url
fails_twice = refl

crawl_website-unembedded_example :
    (crawl_website (crawling false) (codes "w") nothing_saved).embedded ≡ []
crawl_website-unembedded_example =
    crawl_website-unembedded (crawling false) (codes "w") nothing_saved refl refl
