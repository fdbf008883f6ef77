-- ===== src/Memory/NoteLaws.antt =====
-- app/context/memory_store.py: a note that was added is listed.
use feature_frontend.Prelude.{
  ℕ, ◌+◌, ◌≤◌, ◌≡◌, refl, ap, ◌∙◌, false, Option, none, some, List, [], ◌∷◌, ◌++◌, ◌⊎◌, inl, inr,
  length, length-append, keep_if, keep_if-append, leb, ltb, map, arith, Bool-cases,
}
use mathlib.Core.Path.{subst}
use feature_frontend.Prelude.Text.{Text, text_eq_refl}
use feature_frontend.Memory.Notes.{
  MemoryError, item_limit, byte_limit, Payload, Tags, absent, no_list, a_list, Note, Memory, Json,
  MemoryLimits, make_note, to_dict, with_tags, from_fields, from_dict, of_job, show_record,
  list_notes, item_of, count_items, add_valid, add_note, utf8_length,
}

map-snoc :
    {A B : Type 0} (f : A → B) (xs : List A) (x : A) → map f (xs ++ x ∷ []) ≡ map f xs ++ f x ∷ []
map-snoc f [] x = refl
map-snoc f (y ∷ ys) x = ap (◌∷◌ (f y)) (map-snoc f ys x)

-- A note is made as it is, or not at all.
make_note-same : (n k : Note) → make_note n ≡ inr k → n ≡ k
unfolding make_note
make_note-same n k h = ground arith

made : (n k : Note) → make_note n ≡ inr k → make_note k ≡ inr k
made n k h = subst (λ x. make_note x ≡ inr k) (make_note-same n k h) h

with_tags-made :
    (t u b : Text) (s : Option Text) (tags : Tags) (n : Note)
    → with_tags t u b s tags ≡ inr n
    → make_note n ≡ inr n
with_tags-made t u b s no_list n h = absurd (cc)
with_tags-made t u b s absent n h = made _ n h
with_tags-made t u b s (a_list tags) n h = made _ n h

from_fields-made :
    (t u b : Option Text) (p : Payload) (n : Note)
    → from_fields t u b p ≡ inr n
    → make_note n ≡ inr n
from_fields-made (some t) (some u) (some b) p n h = with_tags-made t u b p.step_id p.tags n h
from_fields-made none u b p n h = absurd (cc)
from_fields-made (some t) none b p n h = absurd (cc)
from_fields-made (some t) (some u) none p n h = absurd (cc)

-- A note that was read from a payload is read back from its own.
from_dict-to_dict : (p : Payload) (n : Note) → from_dict p ≡ inr n → from_dict (to_dict n) ≡ inr n
unfolding from_dict
from_dict-to_dict p n h = from_fields-made p.note_type p.title p.body p n h

module _ (json : Json) where
  shown_back :
      (job_id : Text) (n : Note)
      → json.loads (json.dumps (to_dict n)) ≡ some (to_dict n)
      → from_dict (to_dict n) ≡ inr n
      → show_record json (item_of json job_id n) ≡ to_dict n
  shown_back job_id n back h = rw back (rw h refl)

  listed_last :
      (job_id : Text) (n : Note) (m : Memory)
      → json.loads (json.dumps (to_dict n)) ≡ some (to_dict n)
      → from_dict (to_dict n) ≡ inr n
      → list_notes json job_id (record m { items = m.items ++ item_of json job_id n ∷ [] })
        ≡ list_notes json job_id m ++ to_dict n ∷ []
  listed_last job_id n m back h =
      ap (map (show_record json)) (
        keep_if-append (of_job job_id) m.items (item_of json job_id n ∷ [])
        ∙ ap (λ rest. keep_if (of_job job_id) m.items ++ rest) (own job_id n))
      ∙ map-snoc (show_record json) (keep_if (of_job job_id) m.items) (item_of json job_id n)
      ∙ ap (λ q. list_notes json job_id m ++ q ∷ []) (shown_back job_id n back h)
    where
      own :
          (job_id : Text) (n : Note)
          → keep_if (of_job job_id) (item_of json job_id n ∷ []) ≡ item_of json job_id n ∷ []
      own job_id n = rw (text_eq_refl job_id) refl

  counted_last :
      (job_id : Text) (n : Note) (m : Memory)
      → count_items json job_id (record m { items = m.items ++ item_of json job_id n ∷ [] })
        ≤ count_items json job_id m + 1
  counted_last job_id n m =
      let split = keep_if-append (of_job job_id) m.items (item_of json job_id n ∷ []) in
      rw split (
        omega (
          arith,
          length-append (keep_if (of_job job_id) m.items)
              (keep_if (of_job job_id) (item_of json job_id n ∷ [])),
          one_at_most,
        ))
    where
      one_at_most : length (keep_if (of_job job_id) (item_of json job_id n ∷ [])) ≤ 1
      one_at_most = rw (text_eq_refl job_id) (omega arith)

  abbrev with_item : Text → Note → Memory → Memory
  with_item job_id n m = record m { items = m.items ++ item_of json job_id n ∷ [] }

  inr-same : (x : MemoryError ⊎ Memory) (a b : Memory) → x ≡ inr a → x ≡ inr b → a ≡ b
  inr-same x a b h k = cc

  below : (a b : ℕ) → leb b a ≡ false → a + 1 ≤ b
  below a b h = ground arith

  added_valid :
      (limits : MemoryLimits) (job_id : Text) (m k : Memory) (r : MemoryError ⊎ Note)
      → add_valid json limits job_id m r ≡ inr k
      → (n : Note) × (r ≡ inr n)
        × (with_item job_id n m ≡ k)
        × (count_items json job_id m + 1 ≤ limits.max_items_per_job)
  added_valid limits job_id m k (inl e) h = absurd (cc)
  added_valid limits job_id m k (inr n) h =
      elim (Bool-cases (leb limits.max_items_per_job (count_items json job_id m))) [
        | inl full ↦
            let refused : add_valid json limits job_id m (inr n) ≡ inl item_limit = rw full refl in
            absurd (cc)
        | inr room ↦ elim (Bool-cases (ltb limits.max_bytes_per_item (utf8_length n.body))) [
          | inl long ↦
              let refused : add_valid json limits job_id m (inr n) ≡ inl byte_limit =
                rw (room, long) refl in
              absurd (cc)
          | inr short ↦
              let taken : add_valid json limits job_id m (inr n) ≡ inr (with_item job_id n m) =
                rw (room, short) refl in
              (
                n,
                refl,
                inr-same (add_valid json limits job_id m (inr n)) _ k taken h,
                below _ _ room,
              )
        ]
      ]

  -- A note that is accepted is a valid one, and is listed after the notes that were there, with the
  -- fields that it was read with; the job then has no more notes than the limit. It is assumed that
  -- the JSON text of the note is read back as what it was written from.
  pub add_note-list_notes :
      (limits : MemoryLimits) (job_id : Text) (p : Payload) (m k : Memory)
      → ((n : Note) → from_dict p ≡ inr n → json.loads (json.dumps (to_dict n)) ≡ some (to_dict n))
      → add_note json limits job_id p m ≡ inr k
      → (n : Note) × (from_dict p ≡ inr n)
        × (list_notes json job_id k ≡ list_notes json job_id m ++ to_dict n ∷ [])
        × (count_items json job_id k ≤ limits.max_items_per_job)
  unfolding add_note
  add_note-list_notes limits job_id p m k back h =
      let (n, valid, same, room) = added_valid limits job_id m k (from_dict p) h in
      (
        n,
        valid,
        subst (λ v. list_notes json job_id v ≡ list_notes json job_id m ++ to_dict n ∷ []) same
            (listed_last job_id n m (back n valid) (from_dict-to_dict p n valid)),
        subst (λ v. count_items json job_id v ≤ limits.max_items_per_job) same
            (omega (arith, counted_last job_id n m, room)),
      )
