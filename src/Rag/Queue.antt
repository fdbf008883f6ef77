-- ===== src/Rag/Queue.antt =====
-- backend/rag/crawler/service.py: the lists of URLs that the crawler searches.
use feature_frontend.Prelude.{
  suc, ◌+◌, ◌≤◌, ◌≡◌, refl, ap, ◌∙◌, sym, arith, Bool, true, ◌||◌, List, [], ◌∷◌, ◌++◌, length,
  length-append, Bool-cases, inl, inr, if◌then◌else◌, All,
}
use feature_frontend.Prelude.Text.{Text, text_eq, text_eq_iff, text_eq_refl}
use feature_frontend.Rag.Pages.{clean_url}
use feature_frontend.Rag.Crawler.{mem, add_links}

or_true : (a b : Bool) → a ≡ true → a || b ≡ true
or_true a b h = ground arith

pub or_right : (a b : Bool) → b ≡ true → a || b ≡ true
or_right a b h = ground arith

pub mem-append : (url : Text) (xs ys : List Text) → mem url (xs ++ ys) ≡ (mem url xs || mem url ys)
mem-append url [] ys = refl
mem-append url (x ∷ xs) ys = elim (Bool-cases (text_eq url x)) [
  | inl this ↦ rw this refl
  | inr other ↦ rw other (mem-append url xs ys)
]

pub All-append : (P : Text → Type 0) (xs ys : List Text) → All P xs → All P ys → All P (xs ++ ys)
All-append P [] ys h hs = hs
All-append P (x ∷ xs) ys (this, others) hs = (this, All-append P xs ys others hs)

pub text_eq_sym : (s t : Text) → text_eq s t ≡ text_eq t s
text_eq_sym s t = ground (arith, text_eq_iff s t, text_eq_iff t s)

module _ (visited : List Text) where
  -- A URL is taken care of when it was visited or is in the queue.
  abbrev pub known : Text → List Text → Bool
  known url queue = mem url visited || mem url queue

  queued : List Text → Text → List Text
  queued queue link =
      if mem (clean_url link) visited || mem (clean_url link) queue
      then queue
      else queue ++ clean_url link ∷ []

  queued-mem :
      (queue : List Text) (link url : Text)
      → mem url queue ≡ true
      → mem url (queued queue link) ≡ true
  unfolding queued
  queued-mem queue link url h = elim (Bool-cases (known (clean_url link) queue)) [
    | inl there ↦ rw there h
    | inr new ↦ rw new (mem-append url queue (clean_url link ∷ []) ∙ or_true _ _ h)
  ]

  queued-known :
      (queue : List Text) (link : Text) → known (clean_url link) (queued queue link) ≡ true
  unfolding queued
  queued-known queue link = elim (Bool-cases (known (clean_url link) queue)) [
    | inl there ↦ rw there there
    | inr new ↦ rw new (
        or_right _ _ (
          mem-append (clean_url link) queue (clean_url link ∷ [])
          ∙ or_right _ _ (or_true _ _ (text_eq_refl (clean_url link)))))
  ]

  queued-length :
      (queue : List Text) (link : Text) → length (queued queue link) ≤ suc (length queue)
  unfolding queued
  queued-length queue link = elim (Bool-cases (known (clean_url link) queue)) [
    | inl there ↦ rw there (omega arith)
    | inr new ↦ rw new (omega (arith, length-append queue (clean_url link ∷ [])))
  ]

  queued-All :
      (P : Text → Type 0) (queue : List Text) (link : Text)
      → All P queue
      → P (clean_url link)
      → All P (queued queue link)
  unfolding queued
  queued-All P queue link h this = elim (Bool-cases (known (clean_url link) queue)) [
    | inl there ↦ rw there h
    | inr new ↦ rw new (All-append P queue (clean_url link ∷ []) h (this, tt))
  ]

  pub add_links-mem :
      (links queue : List Text) (url : Text)
      → mem url queue ≡ true
      → mem url (add_links visited links queue) ≡ true
  unfolding queued
  add_links-mem [] queue url h = h
  add_links-mem (link ∷ links) queue url h =
      add_links-mem links (queued queue link) url (queued-mem queue link url h)

  pub add_links-length :
      (links queue : List Text)
      → length (add_links visited links queue) ≤ length queue + length links
  unfolding queued
  add_links-length [] queue = omega arith
  add_links-length (link ∷ links) queue =
      omega (arith, queued-length queue link, add_links-length links (queued queue link))

  pub add_links-All :
      (P : Text → Type 0) (links queue : List Text)
      → All P queue
      → All (λ link. P (clean_url link)) links
      → All P (add_links visited links queue)
  unfolding queued
  add_links-All P [] queue h hs = h
  add_links-All P (link ∷ links) queue h (this, others) =
      add_links-All P links (queued queue link) (queued-All P queue link h this) others

  known_later :
      (url : Text) (links queue : List Text)
      → known url queue ≡ true
      → known url (add_links visited links queue) ≡ true
  known_later url links queue h = elim (Bool-cases (mem url visited)) [
    | inl before ↦ rw before refl
    | inr not_before ↦
        or_right _ _
          (add_links-mem links queue url (sym (ap (λ b. b || mem url queue) not_before) ∙ h))
  ]

  pub add_links-known :
      (links queue : List Text)
      → All (λ link. known (clean_url link) (add_links visited links queue) ≡ true) links
  unfolding queued
  add_links-known [] queue = tt
  add_links-known (link ∷ links) queue = (
    known_later (clean_url link) links (queued queue link) (queued-known queue link),
    add_links-known links (queued queue link),
  )
