-- ===== src/Rag/Store.antt =====
-- backend/rag/tasks/crawl.py, with the rows of backend/rag/models/website.py and website_page.py: a
-- crawl that is stored. `now` is what the session of the crawl sees, `saved` what it has committed;
-- embeddings are made in a session of their own, which reads what is saved.
use feature_frontend.Prelude.{
  ℕ, suc, Bool, false, not, ◌&&◌, Option, none, some, List, [], ◌∷◌, ◌++◌, length, keep_if,
  if◌then◌else◌,
}
use feature_frontend.Prelude.Text.{Text, text_eq}
use feature_frontend.Auth.Database.{first_where, update_where}
use feature_frontend.Rag.Pages.{Site, Page}
use feature_frontend.Rag.Crawler.{crawl}

pub data WebsiteStatus : Type 0 where
  pending crawling ready error paused : WebsiteStatus

pub record Website : Type 0 where
  pub id : Text
  pub url : Text
  pub max_pages : ℕ
  pub status : WebsiteStatus
  pub last_crawled_at : Option ℕ
  pub pages_indexed : ℕ
  pub crawl_error : Option Text

pub record WebsitePage : Type 0 where
  pub id : Text
  pub website_id : Text
  pub url : Text
  pub title : Option Text
  pub content : Text
  pub page_metadata : Page
  pub content_hash : Option Text
  pub last_crawled_at : ℕ

pub record Corpus : Type 0 where
  pub websites : List Website
  pub now : List WebsitePage
  pub saved : List WebsitePage
  -- The texts behind the vectors of each page, and the pages that wait for a worker.
  pub embedded : List (Text × Text)
  pub queued : List Text
  pub drawn : ℕ

-- What the task calls, and the time.
pub record Crawling : Type 0 where
  pub use_celery_embeddings : Bool
  pub uuid : ℕ → Text
  pub site_of : Website → Site
  pub embeds : WebsitePage → Bool
  pub passes : ℕ
  pub time : ℕ
  -- The text of the error that a query for one row raises.
  pub several_rows : Text

-- What `scalar_one_or_none` is given: of several rows it raises.
pub data OneOrNone : Type 0 where
  no_row several : OneOrNone
  one_row : WebsitePage → OneOrNone

abbrev pub one_or_none : List WebsitePage → OneOrNone
one_or_none [] = no_row
one_or_none (r ∷ []) = one_row r
one_or_none (r ∷ s ∷ rs) = several

-- The corpus after a part of the task, which may have raised.
pub data Crawled : Type 0 where
  stored raised : Corpus → Crawled

abbrev pub is_page : (website_id url : Text) → WebsitePage → Bool
is_page website_id url p = text_eq p.website_id website_id && text_eq p.url url

abbrev pub hash_is : Option Text → Text → Bool
hash_is none h = false
hash_is (some g) h = text_eq g h

module _ (k : Crawling) where
  abbrev pub embed_found : Option WebsitePage → Corpus → Corpus
  embed_found none c = c
  embed_found (some p) c =
      if k.embeds p
      then record c {
        embedded = (p.id, p.content) ∷ keep_if (λ e. not (text_eq e.0 p.id)) c.embedded;
      }
      else c

  -- `_process_page_embeddings_async`
  abbrev pub process_page_embeddings : Text → Corpus → Corpus
  process_page_embeddings page_id c =
      embed_found (first_where (λ p. text_eq p.id page_id) c.saved) c

  abbrev pub trigger : Text → Corpus → Corpus
  trigger page_id c =
      if k.use_celery_embeddings
      then record c { queued = c.queued ++ page_id ∷ [] }
      else process_page_embeddings page_id c

  abbrev pub new_page : Text → Text → Page → WebsitePage
  new_page id website_id p = record {
    id = id;
    website_id = website_id;
    url = p.url;
    title = p.title;
    content = p.content;
    page_metadata = p;
    content_hash = some p.content_hash;
    last_crawled_at = k.time;
  }

  abbrev pub refresh : Page → WebsitePage → WebsitePage
  refresh p row = record row {
    content = p.content;
    title = p.title;
    page_metadata = p;
    content_hash = some p.content_hash;
    last_crawled_at = k.time;
  }

  abbrev pub store_found : Text → Page → Corpus → OneOrNone → Crawled
  store_found website_id p c no_row = stored (
      trigger (k.uuid c.drawn) (record c {
        now = c.now ++ new_page (k.uuid c.drawn) website_id p ∷ [];
        drawn = suc c.drawn;
      }))
  store_found website_id p c (one_row row) =
      if hash_is row.content_hash p.content_hash
      then stored c
      else stored (
          trigger row.id
            (record c { now = update_where (is_page website_id p.url) (refresh p) c.now }))
  store_found website_id p c several = raised c

  abbrev pub store_page : Text → Page → Corpus → Crawled
  store_page website_id p c =
      store_found website_id p c (one_or_none (keep_if (is_page website_id p.url) c.now))

  abbrev pub unless_raised : Crawled → (Corpus → Crawled) → Crawled
  unless_raised (stored c) f = f c
  unless_raised (raised c) f = raised c

  abbrev pub store_pages : Text → List Page → Corpus → Crawled
  store_pages website_id [] c = stored c
  store_pages website_id (p ∷ ps) c =
      unless_raised (store_page website_id p c) (store_pages website_id ps)

  abbrev pub change_website : Text → (Website → Website) → Corpus → Corpus
  change_website id f c = record c { websites = update_where (λ w. text_eq w.id id) f c.websites }

  abbrev pub count_pages : Text → Corpus → ℕ
  count_pages website_id c = length (keep_if (λ p. text_eq p.website_id website_id) c.now)

  abbrev pub finish_crawl : Text → Corpus → Corpus
  finish_crawl id c =
      change_website id
        (λ w. record w {
          status = ready;
          last_crawled_at = some k.time;
          pages_indexed = count_pages id c;
          crawl_error = none;
        })
        (record c { saved = c.now })

  -- The `except` branch: the session is not rolled back, so what was stored before the error is
  -- committed with it.
  abbrev pub fail_crawl : Text → Corpus → Corpus
  fail_crawl id c =
      change_website id (λ w. record w { status = error; crawl_error = some k.several_rows })
        (record c { saved = c.now })

  abbrev pub end_crawl : Text → Crawled → Corpus
  end_crawl id (stored c) = finish_crawl id c
  end_crawl id (raised c) = fail_crawl id c

  abbrev pub pages_of : Website → List Page
  pages_of w = (crawl (k.site_of w) k.passes w.url).results

  abbrev pub crawl_found : Corpus → Option Website → Corpus
  crawl_found c none = c
  crawl_found c (some w) =
      end_crawl w.id (
        store_pages w.id (pages_of w) (change_website w.id (λ v. record v { status = crawling }) c))

  -- `_crawl_website_async`, where nothing is raised but by the queries for one row: its session
  -- begins with what is saved.
  abbrev pub crawl_website : Text → Corpus → Corpus
  crawl_website website_id c =
      crawl_found (record c { now = c.saved })
        (first_where (λ w. text_eq w.id website_id) c.websites)
