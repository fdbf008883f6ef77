-- ===== src/Audit/Log.antt =====
-- `AuditLogService` of backend/admin/services.py: the pages and the export of the audit log.
use mathlib.Core.List.{Perm}
use feature_frontend.Prelude.{
  ◌≤◌, All, ℕ, zero, suc, ◌+◌, ◌-◌, ◌*◌, Bool, true, false, ◌&&◌, ◌||◌, Option, none, some, List,
  [], ◌∷◌, ◌++◌, any, length, keep_if, leb, ◌==◌, map, take, drop, if◌then◌else◌,
}
use feature_frontend.Prelude.Text.{Text, codes, text_eq}

-- A row of `audit_logs`; its metadata is the JSON text that the column has.
pub record AuditRecord : Type 0 where
  pub id : Text
  pub actor_user_id : Option Text
  pub action : Text
  pub target_type : Option Text
  pub target_id : Option Text
  pub ip : Option Text
  pub user_agent : Option Text
  pub metadata_json : Option Text
  pub created_at : ℕ

pub record LogFilters : Type 0 where
  pub actor : Option Text
  pub action : Option Text
  pub target_type : Option Text
  pub from_ts : Option ℕ
  pub to_ts : Option ℕ

-- What libraries do: JSON printed without spaces, whether a JSON value is falsy, and times.
pub record Printing : Type 0 where
  pub dumps : Text → Text
  pub is_falsy : Text → Bool
  pub isoformat : ℕ → Text

abbrev pub Descending : List AuditRecord → Type 0
Descending [] = Unit
Descending (r ∷ rs) = All (λ s. s.created_at ≤ r.created_at) rs × Descending rs

-- A database, by the results of its statements with `order_by(AuditLog.created_at.desc())`. Rows of
-- one time may come in another order for another statement, so statements are numbered.
pub record Statements : Type 0 where
  pub newest_first : (query : ℕ) → List AuditRecord → List AuditRecord
  pub newest_first-perm : (query : ℕ) (rs : List AuditRecord) → Perm (newest_first query rs) rs
  pub newest_first-Descending :
      (query : ℕ) (rs : List AuditRecord) → Descending (newest_first query rs)

abbrev pub audit_export_headers : List Text
audit_export_headers =
    codes "id"
    ∷ codes "actor_user_id"
    ∷ codes "action"
    ∷ codes "target_type"
    ∷ codes "target_id"
    ∷ codes "ip"
    ∷ codes "user_agent"
    ∷ codes "metadata"
    ∷ codes "created_at"
    ∷ []

-- A text that is asked for; nothing is asked for by `None` or by the empty text.
abbrev wanted : Option Text → Text → Bool
wanted none s = true
wanted (some []) s = true
wanted (some (c ∷ t)) s = text_eq (c ∷ t) s

-- The same for a column that may be null, which is equal to no text.
abbrev wanted_column : Option Text → Option Text → Bool
wanted_column none s = true
wanted_column (some []) s = true
wanted_column (some (c ∷ t)) none = false
wanted_column (some (c ∷ t)) (some s) = text_eq (c ∷ t) s

abbrev not_before : Option ℕ → ℕ → Bool
not_before none t = true
not_before (some from_ts) t = leb from_ts t

abbrev not_after : Option ℕ → ℕ → Bool
not_after none t = true
not_after (some to_ts) t = leb t to_ts

unfoldable pub passes : LogFilters → AuditRecord → Bool
passes f r =
    wanted_column f.actor r.actor_user_id
    && wanted f.action r.action
    && wanted_column f.target_type r.target_type
    && not_before f.from_ts r.created_at
    && not_after f.to_ts r.created_at

-- `"," in value or "\n" in value or "\"" in value`
abbrev pub needs_quotes : Text → Bool
needs_quotes s = any (λ c. c == 44) s || any (λ c. c == 10) s || any (λ c. c == 34) s

-- `value.replace("\"", "\"\"")`
abbrev pub double_quotes : Text → Text
double_quotes [] = []
double_quotes (c ∷ s) = let rest = double_quotes s in if c == 34 then 34 ∷ 34 ∷ rest else c ∷ rest

unfoldable pub escape_csv_field : Text → Text
escape_csv_field s = if needs_quotes s then 34 ∷ double_quotes s ++ 34 ∷ [] else s

-- `",".join(parts)`
abbrev pub join_commas : List Text → Text
join_commas [] = []
join_commas (f ∷ []) = f
join_commas (f ∷ g ∷ fs) = f ++ 44 ∷ join_commas (g ∷ fs)

abbrev pub csv_line : List Text → Text
csv_line row = join_commas (map escape_csv_field row) ++ 10 ∷ []

abbrev pub header_line : Text
header_line = join_commas audit_export_headers ++ 10 ∷ []

-- `value or ""`
abbrev text_or_empty : Option Text → Text
text_or_empty none = []
text_or_empty (some s) = s

-- `record.metadata_json or {}`
abbrev or_object : (is_falsy : Text → Bool) → Option Text → Text
or_object is_falsy none = codes "{}"
or_object is_falsy (some s) = if is_falsy s then codes "{}" else s

module _ (printing : Printing) where
  abbrev pub export_row : AuditRecord → List Text
  export_row r =
      r.id
      ∷ text_or_empty r.actor_user_id
      ∷ r.action
      ∷ text_or_empty r.target_type
      ∷ text_or_empty r.target_id
      ∷ text_or_empty r.ip
      ∷ text_or_empty r.user_agent
      ∷ printing.dumps (or_object printing.is_falsy r.metadata_json)
      ∷ printing.isoformat r.created_at
      ∷ []

  abbrev pub export_line : AuditRecord → Text
  export_line r = csv_line (export_row r)

  abbrev pub lines_then : List AuditRecord → List Text → List Text
  lines_then [] rest = []
  lines_then (r ∷ rs) rest = map export_line (r ∷ rs) ++ rest

-- The rows that pass, in the order in which a statement gives them.
unfoldable pub selected_logs :
    Statements → (query : ℕ) → LogFilters → List AuditRecord → List AuditRecord
selected_logs db query f logs = db.newest_first query (keep_if (passes f) logs)

module _ (db : Statements) where
  -- A page of the log, the first of which is 1, with the number of rows that pass.
  unfoldable pub list_logs :
      (query page page_size : ℕ) → LogFilters → List AuditRecord → List AuditRecord × ℕ
  list_logs query page page_size f logs = (
    take page_size (drop ((page - 1) * page_size) (selected_logs db query f logs)),
    length (keep_if (passes f) logs),
  )

module _ (db : Statements) (printing : Printing) where
  -- The loop over the batches, from an offset: each is a statement of its own. The log does not
  -- change between them.
  abbrev pub export_batches :
      (fuel query batch_size offset : ℕ) → LogFilters → List AuditRecord → List Text
  export_batches zero query batch_size offset f logs = []
  export_batches (suc fuel) query batch_size offset f logs =
      let records = take batch_size (drop offset (selected_logs db query f logs)) in
      lines_then printing records
        (export_batches fuel (suc query) batch_size (offset + batch_size) f logs)

  -- What `stream_csv` yields, one text after the other; its statements are numbered from `query`
  -- on.
  unfoldable pub stream_csv :
      (fuel query batch_size : ℕ) → LogFilters → List AuditRecord → List Text
  stream_csv fuel query batch_size f logs =
      header_line ∷ export_batches fuel query batch_size 0 f logs
