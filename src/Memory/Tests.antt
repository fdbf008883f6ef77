-- ===== src/Memory/Tests.antt =====
-- app/context/memory_store.py and app/agents/archivist_agent.py on sample notes.
use feature_frontend.Prelude.{
  ◌≤◌, ◌<◌, ◌*◌, ◌≡◌, refl, not, none, some, [], ◌∷◌, ◌++◌, ◌⊎◌, inl, inr, keep_if, length, ap,
}
use feature_frontend.Prelude.Text.{codes, strip}
use feature_frontend.Memory.Notes.{
  MemoryError, empty_title, Note, Memory, Json, MemoryLimits, to_dict, from_dict, list_notes,
  item_of, count_items, add_note, make_note, is_blank, utf8_length,
}
use feature_frontend.Memory.NoteLaws.{add_note-list_notes}
use feature_frontend.Memory.Archive.{stale_notes, maintain}
use feature_frontend.Memory.ArchiveLaws.{shares_title, maintain-items}

abbrev note : Note
note = record {
  note_type = codes "Todo";
  title = codes "t";
  body = codes "b";
  tags = [];
  step_id = none;
}

-- It reads every text as the sample note.
abbrev json : Json
json = record {
  dumps = λ p. codes "{}";
  loads = λ s. some (to_dict note);
  dumps_all = λ ps. codes "[]";
}

abbrev limits : MemoryLimits
limits = record { max_items_per_job = 12; max_bytes_per_item = 100 }

abbrev no_notes : Memory
no_notes = record { items = []; files = [] }

abbrev one_note : Memory
one_note = record { items = item_of json (codes "j") note ∷ []; files = [] }

no_title : from_dict (record (to_dict note) { title = some (codes " ") }) ≡ inl empty_title
unfolding from_dict make_note is_blank strip
no_title = refl

valid : from_dict (to_dict note) ≡ inr note
unfolding from_dict make_note is_blank strip
valid = refl

same_note : (x : MemoryError ⊎ Note) (n k : Note) → x ≡ inr n → x ≡ inr k → n ≡ k
same_note x n k h j = cc

read_back :
    (n : Note)
    → from_dict (to_dict note) ≡ inr n
    → json.loads (json.dumps (to_dict n)) ≡ some (to_dict n)
read_back n h = ap (λ k. some (to_dict k)) (same_note (from_dict (to_dict note)) note n valid h)

added : add_note json limits (codes "j") (to_dict note) no_notes ≡ inr one_note
unfolding add_note from_dict make_note is_blank strip utf8_length
added = refl

add_note-list_notes_example :
    (n : Note) × (from_dict (to_dict note) ≡ inr n)
    × (list_notes json (codes "j") one_note
        ≡ list_notes json (codes "j") no_notes ++ to_dict n ∷ [])
    × (count_items json (codes "j") one_note ≤ 12)
add_note-list_notes_example =
    add_note-list_notes json limits (codes "j") (to_dict note) no_notes one_note read_back added

-- Ten notes and an older one, all of the same title.
abbrev eleven : Memory
eleven =
    let n = item_of json (codes "j") note in
    record { items = n ∷ n ∷ n ∷ n ∷ n ∷ n ∷ n ∷ n ∷ n ∷ n ∷ n ∷ []; files = [] }

-- The ten of them that are meant to stay.
abbrev ten_left : Memory
ten_left =
    let n = item_of json (codes "j") note in
    record { items = n ∷ n ∷ n ∷ n ∷ n ∷ n ∷ n ∷ n ∷ n ∷ n ∷ []; files = [] }

all_gone : (maintain json limits (codes "j") eleven).items ≡ []
unfolding maintain from_dict make_note is_blank strip
all_gone = refl

one_archived : length (stale_notes json (codes "j") eleven) ≡ 1
one_archived = refl

maintain-items_example :
    let old = to_dict note ∷ [] in
    let recent = list_notes json (codes "j") ten_left in
    (5 * length (old ++ recent) ≤ 4 * 12 → maintain json limits (codes "j") eleven ≡ eleven)
    × (4 * 12 < 5 * length (old ++ recent)
        → ((maintain json limits (codes "j") eleven).items
            ≡ keep_if (λ r. not (shares_title (codes "j") old r)) eleven.items)
          × ((maintain json limits (codes "j") eleven).files ≡ [] ++ (codes "j", codes "[]") ∷ []))
unfolding from_dict make_note is_blank strip
maintain-items_example =
    maintain-items json limits (codes "j") eleven (to_dict note ∷ [])
      (list_notes json (codes "j") ten_left) refl refl
