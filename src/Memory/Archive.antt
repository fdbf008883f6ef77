-- ===== src/Memory/Archive.antt =====
-- app/agents/archivist_agent.py: the older notes of a job go to a file.
use feature_frontend.Prelude.{
  ◌-◌, ◌*◌, Bool, false, not, ◌&&◌, Option, none, some, List, [], ◌∷◌, length, take, keep_if, leb,
  if◌then◌else◌,
}
use feature_frontend.Prelude.Text.{Text, text_eq}
use feature_frontend.Memory.Notes.{
  Payload, MemoryItem, Memory, Json, MemoryLimits, of_job, list_notes, add_file,
}

-- `MemoryItemModel.key == payload.get("title")`, which is false where there is no title.
abbrev pub titled : Option Text → MemoryItem → Bool
titled none r = false
titled (some t) r = text_eq r.key t

abbrev pub is_stale : Text → Payload → MemoryItem → Bool
is_stale job_id p r = of_job job_id r && titled p.title r

abbrev pub delete_note : Text → Payload → Memory → Memory
delete_note job_id p m = record m { items = keep_if (λ r. not (is_stale job_id p r)) m.items }

abbrev pub delete_notes : Text → List Payload → Memory → Memory
delete_notes job_id [] m = m
delete_notes job_id (p ∷ ps) m = delete_notes job_id ps (delete_note job_id p m)

module _ (json : Json) where
  -- All but the last ten.
  abbrev pub stale_notes : Text → Memory → List Payload
  stale_notes job_id m = let notes = list_notes json job_id m in take (length notes - 10) notes

  -- `len(notes) <= max_items * 0.8`
  abbrev pub has_room : MemoryLimits → Text → Memory → Bool
  has_room limits job_id m =
      leb (5 * length (list_notes json job_id m)) (4 * limits.max_items_per_job)

  unfoldable pub maintain : MemoryLimits → Text → Memory → Memory
  maintain limits job_id m =
      if has_room limits job_id m
      then m
      else delete_notes job_id (stale_notes job_id m)
          (add_file job_id (json.dumps_all (stale_notes job_id m)) m)
