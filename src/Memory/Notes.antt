-- ===== src/Memory/Notes.antt =====
-- app/context/notes.py and app/context/memory_store.py: the notes of a job.
use feature_frontend.Prelude.{
  ℕ, ◌+◌, Bool, true, false, not, Option, none, some, List, [], ◌∷◌, ◌++◌, ◌⊎◌, inl, inr, any,
  length, keep_if, ltb, leb, map, if◌then◌else◌,
}
use feature_frontend.Prelude.Text.{Text, codes, text_eq, strip}

pub data MemoryError : Type 0 where
  missing_field bad_tags invalid_type empty_title empty_body empty_tag : MemoryError
  item_limit byte_limit : MemoryError

-- The value under "tags": it may be missing, and it may be no list.
pub data Tags : Type 0 where
  absent no_list : Tags
  a_list : List Text → Tags

-- The JSON object of a note.
pub record Payload : Type 0 where
  pub note_type : Option Text
  pub title : Option Text
  pub body : Option Text
  pub tags : Tags
  pub step_id : Option Text

pub record Note : Type 0 where
  pub note_type : Text
  pub title : Text
  pub body : Text
  pub tags : List Text
  pub step_id : Option Text

abbrev allowed_note_types : List Text
allowed_note_types =
    codes "Decision" ∷ codes "Constraint" ∷ codes "Todo" ∷ codes "Glossary" ∷ codes "Link" ∷ []

-- `not text.strip()`
abbrev is_empty : Text → Bool
is_empty [] = true
is_empty (c ∷ s) = false

unfoldable pub is_blank : Text → Bool
is_blank s = is_empty (strip s)

-- `Note(...)`, which checks its fields.
unfoldable pub make_note : Note → MemoryError ⊎ Note
make_note n =
    if not (any (text_eq n.note_type) allowed_note_types)
    then inl invalid_type
    else (if is_blank n.title
        then inl empty_title
        else (if is_blank n.body
            then inl empty_body
            else (if any is_blank n.tags then inl empty_tag else inr n)))

abbrev pub to_dict : Note → Payload
to_dict n = record {
  note_type = some n.note_type;
  title = some n.title;
  body = some n.body;
  tags = a_list n.tags;
  step_id = n.step_id;
}

abbrev pub with_tags : Text → Text → Text → Option Text → Tags → MemoryError ⊎ Note
with_tags note_type title body step_id no_list = inl bad_tags
with_tags note_type title body step_id absent =
    make_note
      (record { note_type = note_type; title = title; body = body; tags = []; step_id = step_id })
with_tags note_type title body step_id (a_list tags) =
    make_note
      (record { note_type = note_type; title = title; body = body; tags = tags; step_id = step_id })

abbrev pub from_fields : Option Text → Option Text → Option Text → Payload → MemoryError ⊎ Note
from_fields (some t) (some u) (some b) p = with_tags t u b p.step_id p.tags
from_fields none u b p = inl missing_field
from_fields (some t) none b p = inl missing_field
from_fields (some t) (some u) none p = inl missing_field

unfoldable pub from_dict : Payload → MemoryError ⊎ Note
from_dict p = from_fields p.note_type p.title p.body p

-- A row of `memory_items`, in the order in which the rows were created.
pub record MemoryItem : Type 0 where
  pub job_id : Text
  pub kind : Text
  pub key : Text
  pub content : Text

pub record Memory : Type 0 where
  pub items : List MemoryItem
  -- The files of jobs, each with what was written to it.
  pub files : List (Text × Text)

pub record Json : Type 0 where
  pub dumps : Payload → Text
  pub loads : Text → Option Payload
  -- `json.dumps` of a snapshot of notes.
  pub dumps_all : List Payload → Text

pub record MemoryLimits : Type 0 where
  pub max_items_per_job : ℕ
  pub max_bytes_per_item : ℕ

-- `len(body.encode("utf-8"))`
abbrev utf8_width : ℕ → ℕ
utf8_width c = if ltb c 128 then 1 else (if ltb c 2048 then 2 else (if ltb c 65536 then 3 else 4))

unfoldable pub utf8_length : Text → ℕ
utf8_length [] = 0
utf8_length (c ∷ s) = utf8_width c + utf8_length s

abbrev pub of_job : Text → MemoryItem → Bool
of_job job_id r = text_eq r.job_id job_id

-- A record whose content is no note is given as it is.
abbrev legacy : MemoryItem → Payload
legacy r = record {
  note_type = some r.kind;
  title = some r.key;
  body = some r.content;
  tags = absent;
  step_id = none;
}

abbrev shown : MemoryItem → MemoryError ⊎ Note → Payload
shown r (inl e) = legacy r
shown r (inr n) = to_dict n

abbrev pub show_loaded : MemoryItem → Option Payload → Payload
show_loaded r none = legacy r
show_loaded r (some p) = shown r (from_dict p)

abbrev pub add_file : Text → Text → Memory → Memory
add_file job_id text m = record m { files = m.files ++ (job_id, text) ∷ [] }

module _ (json : Json) where
  abbrev pub show_record : MemoryItem → Payload
  show_record r = show_loaded r (json.loads r.content)

  abbrev pub list_notes : Text → Memory → List Payload
  list_notes job_id m = map show_record (keep_if (of_job job_id) m.items)

  abbrev pub item_of : Text → Note → MemoryItem
  item_of job_id n = record {
    job_id = job_id;
    kind = n.note_type;
    key = n.title;
    content = json.dumps (to_dict n);
  }

  abbrev pub count_items : Text → Memory → ℕ
  count_items job_id m = length (keep_if (of_job job_id) m.items)

  abbrev pub add_valid : MemoryLimits → Text → Memory → MemoryError ⊎ Note → MemoryError ⊎ Memory
  add_valid limits job_id m (inl e) = inl e
  add_valid limits job_id m (inr n) =
      if leb limits.max_items_per_job (count_items job_id m)
      then inl item_limit
      else (if ltb limits.max_bytes_per_item (utf8_length n.body)
          then inl byte_limit
          else inr (record m { items = m.items ++ item_of job_id n ∷ [] }))

  unfoldable pub add_note : MemoryLimits → Text → Payload → Memory → MemoryError ⊎ Memory
  add_note limits job_id p m = add_valid limits job_id m (from_dict p)
