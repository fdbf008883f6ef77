-- ===== src/Rag/Pages.antt =====
-- backend/rag/crawler/service.py: what the crawler makes of a URL and of the page behind it.
use feature_frontend.Prelude.{
  ℕ, Bool, true, false, not, ◌&&◌, Option, none, some, List, [], ◌∷◌, ◌++◌, map, ◌==◌, any, keep_if,
  take_while, drop_while,
}
use mathlib.Core.List.{reverse}
use feature_frontend.Prelude.Text.{Text, codes, text_eq, starts_with, strip, splitlines, cons_line}

-- A response as `BeautifulSoup` reads it: the text without scripts, styles and frames, the texts of
-- the tags, and the links as `urljoin` completes them.
pub record Soup : Type 0 where
  pub text : Text
  pub title : Option Text
  pub description : Option Text
  pub headings : List (ℕ × Text)
  pub hrefs : List Text

-- What the crawler calls; `fetch` is `none` where an exception is raised.
pub record Site : Type 0 where
  pub base_url : Text
  pub max_pages : ℕ
  pub netloc : Text → Text
  pub lower : Text → Text
  pub sha256_hex : Text → Text
  pub fetch : Text → Option Soup

pub record Page : Type 0 where
  pub url : Text
  pub title : Option Text
  pub content : Text
  pub description : Option Text
  pub headings : List (ℕ × Text)
  pub links : List Text
  pub content_hash : Text

-- `url.split('#')[0]`
abbrev before_fragment : Text → Text
before_fragment = take_while (λ c. not (c == 35))

-- Without its fragment and the slashes at its end.
unfoldable pub clean_url : Text → Text
clean_url url = reverse (drop_while (λ c. c == 47) (reverse (before_fragment url)))

-- `url.endswith(suffix)`
abbrev ends_with : Text → Text → Bool
ends_with url suffix = starts_with (reverse suffix) (reverse url)

abbrev skip_extensions : List Text
skip_extensions =
    codes ".pdf"
    ∷ codes ".jpg"
    ∷ codes ".jpeg"
    ∷ codes ".png"
    ∷ codes ".gif"
    ∷ codes ".svg"
    ∷ codes ".ico"
    ∷ codes ".css"
    ∷ codes ".js"
    ∷ codes ".zip"
    ∷ codes ".tar"
    ∷ codes ".gz"
    ∷ codes ".mp4"
    ∷ codes ".mp3"
    ∷ codes ".doc"
    ∷ codes ".docx"
    ∷ codes ".xls"
    ∷ codes ".xlsx"
    ∷ codes ".ppt"
    ∷ codes ".pptx"
    ∷ []

unfoldable pub is_valid_url : Site → Text → Bool
is_valid_url site url =
    text_eq (site.netloc url) (site.netloc site.base_url)
    && not (any (ends_with (site.lower url)) skip_extensions)
    && not (any (λ c. c == 35) url && text_eq (before_fragment url) site.base_url)

-- `line.split("  ")`
abbrev split_spaces : Text → List Text
split_spaces [] = [] ∷ []
split_spaces (c ∷ []) = (c ∷ []) ∷ []
split_spaces (c ∷ d ∷ s) = elim (c == 32 && d == 32) [
  | true ↦ [] ∷ split_spaces s
  | false ↦ cons_line c (split_spaces (d ∷ s))
]

-- `' '.join(chunks)`
abbrev join_spaces : List Text → Text
join_spaces [] = []
join_spaces (x ∷ []) = x
join_spaces (x ∷ y ∷ xs) = x ++ 32 ∷ join_spaces (y ∷ xs)

abbrev is_filled : Text → Bool
is_filled [] = false
is_filled (c ∷ s) = true

abbrev phrases : List Text → List Text
phrases [] = []
phrases (line ∷ lines) = map strip (split_spaces (strip line)) ++ phrases lines

unfoldable pub extract_text : Soup → Text
extract_text soup = join_spaces (keep_if is_filled (phrases (splitlines soup.text)))

abbrev strip_option : Option Text → Option Text
strip_option none = none
strip_option (some s) = some (strip s)

-- A description that is empty is none.
abbrev description_of : Option Text → Option Text
description_of none = none
description_of (some []) = none
description_of (some (c ∷ s)) = some (strip (c ∷ s))

abbrev headings_of : List (ℕ × Text) → List (ℕ × Text)
headings_of hs = keep_if (λ h. is_filled h.1) (map (λ h. (h.0, strip h.1)) hs)

abbrev links_of : Site → List Text → List Text
links_of site hrefs = map clean_url (keep_if (is_valid_url site) hrefs)

abbrev page_of : Site → Text → Soup → Page
page_of site url soup = record {
  url = url;
  title = strip_option soup.title;
  content = extract_text soup;
  description = description_of soup.description;
  headings = headings_of soup.headings;
  links = links_of site soup.hrefs;
  content_hash = site.sha256_hex (extract_text soup);
}

abbrev pub page_from : Site → Text → Option Soup → Option Page
page_from site url none = none
page_from site url (some soup) = some (page_of site url soup)

unfoldable pub crawl_page : Site → Text → Option Page
crawl_page site url = page_from site url (site.fetch url)
