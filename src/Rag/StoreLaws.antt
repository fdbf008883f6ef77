-- ===== src/Rag/StoreLaws.antt =====
-- backend/rag/tasks/crawl.py: the rows that a crawl leaves in the tables.
use feature_frontend.Prelude.{
  ◌≤◌, length, keep_if, keep_if-append, map, suc, ◌≡◌, refl, ap, ◌∙◌, sym, Bool, true, false, ◌||◌,
  Option, none, some, List, [], ◌∷◌, ◌++◌, All, Bool-cases, inl, inr, arith,
}
use mathlib.Core.List.{append-nil}
use mathlib.Core.Path.{subst}
use feature_frontend.Prelude.Text.{Text, text_eq, text_eq_iff, text_eq_refl}
use feature_frontend.Auth.Database.{first_where, update_where}
use feature_frontend.Rows.{keep_if-changed, keep_if-unchanged}
use feature_frontend.Rag.Pages.{Page}
use feature_frontend.Rag.Crawler.{mem}
use feature_frontend.Rag.Queue.{text_eq_sym}
use feature_frontend.Rag.Once.{urls, Distinct, crawl-Distinct}
use feature_frontend.Rag.Store.{
  Website, WebsitePage, Corpus, Crawling, no_row, one_row, one_or_none, Crawled, stored,
  unless_raised, end_crawl, is_page, hash_is, trigger, embed_found, new_page, refresh, store_found,
  store_pages, pages_of, crawl_found, crawl_website, change_website, finish_crawl, crawling,
}

or_false_left : (a b : Bool) → a || b ≡ false → a ≡ false
or_false_left a b h = ground arith

or_false_right : (a b : Bool) → a || b ≡ false → b ≡ false
or_false_right a b h = ground arith

module _ (k : Crawling) where
  embed_found-now : (p : Option WebsitePage) (c : Corpus) → (embed_found k p c).now ≡ c.now
  embed_found-now none c = refl
  embed_found-now (some p) c = elim (Bool-cases (k.embeds p)) [
    | inl works ↦ rw works refl
    | inr fails ↦ rw fails refl
  ]

  trigger-now : (id : Text) (c : Corpus) → (trigger k id c).now ≡ c.now
  trigger-now id c = elim (Bool-cases k.use_celery_embeddings) [
    | inl celery ↦ rw celery refl
    | inr inline ↦ rw inline (embed_found-now (first_where (λ p. text_eq p.id id) c.saved) c)
  ]

  module _ (website_id : Text) where
    abbrev pub rows_at : (url : Text) → List WebsitePage → List WebsitePage
    rows_at url = keep_if (is_page website_id url)

    -- The only row of a page, with its text.
    abbrev pub Stored : List WebsitePage → Page → Type 0
    Stored rows p =
        (row : WebsitePage) × (rows_at p.url rows ≡ row ∷ [])
        × (row.content_hash ≡ some p.content_hash)

    same_hash : (g : Option Text) (h : Text) → hash_is g h ≡ true → g ≡ some h
    same_hash none h e = absurd (cc)
    same_hash (some g) h e = ap some ((text_eq_iff g h).0 e)

    own_page : (p : Page) (id : Text) → is_page website_id p.url (new_page k id website_id p) ≡ true
    own_page p id = rw (text_eq_refl website_id, text_eq_refl p.url) refl

    other_page :
        (q : Page) (id url : Text)
        → text_eq q.url url ≡ false
        → is_page website_id url (new_page k id website_id q) ≡ false
    other_page q id url apart = rw (text_eq_refl website_id, apart) refl

    apart_page :
        (q url : Text) (row : WebsitePage)
        → text_eq q url ≡ false
        → is_page website_id q row ≡ true
        → is_page website_id url row ≡ false
    apart_page q url row apart here = elim (Bool-cases (text_eq row.website_id website_id)) [
      | inl ours ↦
          let same : text_eq row.url q ≡ true = sym (rw ours refl) ∙ here in
          rw ours (ap (λ t. text_eq t url) ((text_eq_iff row.url q).0 same) ∙ apart)
      | inr not_ours ↦ rw not_ours refl
    ]

    -- A page that is stored leaves the rows of the others as they are, and is one row itself.
    abbrev Kept : Page → Corpus → Crawled → Type 0
    Kept q c r =
        (d : Corpus) × (r ≡ stored d)
        × Stored d.now q
        × ((url : Text) → text_eq q.url url ≡ false → rows_at url d.now ≡ rows_at url c.now)

    store_found-missing :
        (q : Page) (c : Corpus)
        → rows_at q.url c.now ≡ []
        → Kept q c (store_found k website_id q c no_row)
    store_found-missing q c missing =
        let id = k.uuid c.drawn in
        let new = new_page k id website_id q in
        let c' = record c { now = c.now ++ new ∷ []; drawn = suc c.drawn } in
        let added : (url : Text)
            → rows_at url (trigger k id c').now ≡ rows_at url c.now ++ rows_at url (new ∷ []) =
          λ url.
            ap (rows_at url) (trigger-now id c')
            ∙ keep_if-append (is_page website_id url) c.now (new ∷ []) in
        (
          trigger k id c',
          refl,
          (
            new,
            added q.url ∙ rw missing (rw (text_eq_refl website_id, text_eq_refl q.url) refl),
            refl,
          ),
          λ url apart. added url ∙ rw (other_page q id url apart) (append-nil (rows_at url c.now)),
        )

    store_found-found :
        (q : Page) (c : Corpus) (row : WebsitePage)
        → rows_at q.url c.now ≡ row ∷ []
        → Kept q c (store_found k website_id q c (one_row row))
    store_found-found q c row found = elim (Bool-cases (hash_is row.content_hash q.content_hash)) [
      | inl same ↦
          rw same (
            c,
            refl,
            (row, found, same_hash row.content_hash q.content_hash same),
            λ url apart. refl,
          )
      | inr changed ↦
          let c' = record c { now = update_where (is_page website_id q.url) (refresh k q) c.now } in
          rw changed (
            trigger k row.id c',
            refl,
            (
              refresh k q row,
              ap (rows_at q.url) (trigger-now row.id c')
                  ∙ keep_if-changed (is_page website_id q.url) (refresh k q) (λ r. refl) c.now
                  ∙ ap (map (refresh k q)) found,
              refl,
            ),
            λ url apart.
                ap (rows_at url) (trigger-now row.id c')
                ∙ keep_if-unchanged (is_page website_id url) (refresh k q)
                    (is_page website_id q.url) (λ r. refl) (λ r h. apart_page q.url url r apart h)
                    c.now,
          )
    ]

    found_rows-Kept :
        (q : Page) (c : Corpus) (rows : List WebsitePage)
        → rows_at q.url c.now ≡ rows
        → length rows ≤ 1
        → Kept q c (store_found k website_id q c (one_or_none rows))
    found_rows-Kept q c [] found few = store_found-missing q c found
    found_rows-Kept q c (r ∷ []) found few = store_found-found q c r found
    found_rows-Kept q c (r ∷ t ∷ rs) found few = absurd (omega (arith, few))

    -- No two rows of the website have one URL.
    abbrev pub AreUnique : List WebsitePage → Type 0
    AreUnique rows = (url : Text) → length (rows_at url rows) ≤ 1

    Stored-AreUnique :
        (q : Page) (c d : Corpus)
        → AreUnique c.now
        → Stored d.now q
        → ((url : Text) → text_eq q.url url ≡ false → rows_at url d.now ≡ rows_at url c.now)
        → AreUnique d.now
    Stored-AreUnique q c d unique (row, only, hash) others url =
        elim (Bool-cases (text_eq q.url url)) [
          | inl same ↦
              subst (λ u. length (rows_at u d.now) ≤ 1) ((text_eq_iff q.url url).0 same)
                (rw only (omega arith))
          | inr apart ↦ rw (others url apart) (unique url)
        ]

    -- Every page of the list is stored with its text, when no two are of the same URL.
    store_pages-Stored :
        (ps : List Page) (c : Corpus)
        → Distinct (urls ps)
        → AreUnique c.now
        → (d : Corpus) × (store_pages k website_id ps c ≡ stored d)
          × All (Stored d.now) ps
          × ((url : Text) → mem url (urls ps) ≡ false → rows_at url d.now ≡ rows_at url c.now)
    store_pages-Stored [] c distinct unique = (c, refl, tt, λ url new. refl)
    store_pages-Stored (p ∷ ps) c (new, distinct) unique =
        let (c', one, (row, only, hash), others) =
          found_rows-Kept p c (rows_at p.url c.now) refl (unique p.url) in
        let (d, rest, all_stored, kept) =
          store_pages-Stored ps c' distinct
            (Stored-AreUnique p c c' unique (row, only, hash) others) in
        (
          d,
          ap (λ r. unless_raised k r (store_pages k website_id ps)) one ∙ rest,
          ((row, kept p.url new ∙ only, hash), all_stored),
          λ url absent.
              kept url (or_false_right (text_eq url p.url) (mem url (urls ps)) absent)
              ∙ others url (
                  text_eq_sym p.url url
                  ∙ or_false_left (text_eq url p.url) (mem url (urls ps)) absent),
        )

  -- Where no two saved rows of the website have one URL, which the table does not forbid: after a
  -- crawl, every page that the crawl gave is saved in exactly one row under its URL, with the hash
  -- of the text that was found. Nothing is raised but by a query for one row that finds several.
  pub crawl_website-Stored :
      (website_id : Text) (c : Corpus) (w : Website)
      → first_where (λ v. text_eq v.id website_id) c.websites ≡ some w
      → AreUnique w.id c.saved
      → All (Stored w.id (crawl_website k website_id c).saved) (pages_of k w)
  crawl_website-Stored website_id c w found unique =
      let begun =
        change_website k w.id (λ v. record v { status = crawling }) (record c { now = c.saved }) in
      let (d, done, all_stored, kept) =
        store_pages-Stored w.id (pages_of k w) begun (crawl-Distinct (k.site_of w) k.passes w.url)
          unique in
      let ended : crawl_website k website_id c ≡ finish_crawl k w.id d =
        ap (crawl_found k (record c { now = c.saved })) found ∙ ap (end_crawl k w.id) done in
      subst (λ e. All (Stored w.id e.saved) (pages_of k w)) (sym ended) all_stored
