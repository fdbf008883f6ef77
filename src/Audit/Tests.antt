-- ===== src/Audit/Tests.antt =====
-- The export and the pages of the audit log of backend/admin/services.py on sample records.
use mathlib.Core.Logic.Or
use mathlib.Core.List.{Mem, Perm, mem-cons, not-mem-nil}
use mathlib.Core.List.Perm
use native.Mathlib.Nat.{ℕ_set}
use feature_frontend.Prelude.{
  ℕ, ◌≡◌, ◌≢◌, ◌∙◌, refl, ap, sym, none, some, List, [], ◌∷◌, ◌*◌, All, keep_if, map, take, arith,
}
use feature_frontend.Prelude.Text.{codes, text_eq}
use feature_frontend.Audit.Log.{
  AuditRecord, LogFilters, Printing, Descending, passes, escape_csv_field, csv_line,
  audit_export_headers, export_row, selected_logs, stream_csv, list_logs,
}
use feature_frontend.Audit.Csv.{concat_texts, read_csv}
use feature_frontend.Audit.Order.{NoTies}
use feature_frontend.Audit.Sorting.{database}
use feature_frontend.Audit.Export.{ExportsSafely, stream_csv-read_csv, pages, list_logs-pages}

abbrev printing : Printing
printing = record {
  dumps = λ s. s;
  is_falsy = λ s. text_eq s (codes "[]");
  isoformat = λ t. codes "t";
}

abbrev login_at : ℕ → AuditRecord
login_at t = record {
  id = codes "7";
  actor_user_id = none;
  action = codes "login";
  target_type = none;
  target_id = none;
  ip = some (codes "::1");
  user_agent = some (codes "a \"b\", c");
  metadata_json = none;
  created_at = t;
}

abbrev from_50 : LogFilters
from_50 = record {
  actor = none;
  action = some (codes "login");
  target_type = some [];
  from_ts = some 50;
  to_ts = none;
}

abbrev logs : List AuditRecord
logs = login_at 55 ∷ login_at 60 ∷ login_at 51 ∷ login_at 40 ∷ []

abbrev three : List AuditRecord
three = login_at 60 ∷ login_at 55 ∷ login_at 51 ∷ []

three_pass : keep_if (passes from_50) logs ≡ login_at 55 ∷ login_at 60 ∷ login_at 51 ∷ []
unfolding passes
three_pass = refl

three_in_order : selected_logs database 1 from_50 logs ≡ three
unfolding selected_logs passes
three_in_order = refl

three-perm : Perm three (keep_if (passes from_50) logs)
unfolding passes
three-perm = Perm.swap (login_at 55) (login_at 60) (login_at 51 ∷ [])

three-Descending : Descending three
three-Descending = ((omega arith, (omega arith, tt)), ((omega arith, tt), (tt, tt)))

AuditRecord_set : IsSet AuditRecord
AuditRecord_set = hlevel ℕ_set

abbrev Apart : List AuditRecord → Type 0
Apart [] = Unit
Apart (r ∷ rs) = All (λ s. r.created_at ≢ s.created_at) rs × Apart rs

apart_from :
    (r s : AuditRecord) (rs : List AuditRecord)
    → All (λ t. r.created_at ≢ t.created_at) rs
    → Mem s rs
    → r.created_at ≢ s.created_at
apart_from r s [] h m = absurd (not-mem-nil m)
apart_from r s (t ∷ rs) (h, hs) m =
    Or.elim (hlevel) (mem-cons.0 m) (λ e. rw e h) (apart_from r s rs hs)

Apart-NoTies : (rs : List AuditRecord) → Apart rs → NoTies rs
Apart-NoTies [] h r s mr ms e = absurd (not-mem-nil mr)
Apart-NoTies (t ∷ rs) (h, hs) r s mr ms e =
    Or.elim (AuditRecord_set r s) (mem-cons.0 mr)
      (λ er.
        Or.elim (AuditRecord_set r s) (mem-cons.0 ms) (λ es. er ∙ sym es)
          (λ ins. absurd (apart_from t s rs h ins (ap (λ x. x.created_at) (sym er) ∙ e))))
      (λ inr.
        Or.elim (AuditRecord_set r s) (mem-cons.0 ms)
          (λ es. absurd (apart_from t r rs h inr (ap (λ x. x.created_at) (sym es) ∙ sym e)))
          (λ ins. Apart-NoTies rs hs r s inr ins e))

three-NoTies : NoTies three
three-NoTies = Apart-NoTies three ((omega arith, (omega arith, tt)), ((omega arith, tt), (tt, tt)))

written : csv_line (codes "a\"b" ∷ [] ∷ codes "c" ∷ []) ≡ codes "\"a\"\"b\",,c\n"
unfolding escape_csv_field
written = refl

-- A carriage return alone is not put in quotes, and ends the row for the reader.
torn : read_csv (csv_line ((97 ∷ 13 ∷ 98 ∷ []) ∷ [])) ≡ (codes "a" ∷ []) ∷ (codes "b" ∷ []) ∷ []
unfolding escape_csv_field read_csv
torn = refl

stream_csv-read_csv_example :
    read_csv (concat_texts (stream_csv database printing 4 0 2 from_50 logs))
    ≡ audit_export_headers ∷ map (export_row printing) three
stream_csv-read_csv_example =
    stream_csv-read_csv database from_50 logs three printing 4 0 2 three-perm three-Descending
      three-NoTies (safe 60, (safe 55, (safe 51, tt))) (omega arith) (omega arith)
  where
    safe : (t : ℕ) → ExportsSafely printing (login_at t)
    safe t = (refl, (refl, (refl, (refl, (refl, (refl, (refl, (refl, (refl, tt)))))))))

list_logs-pages_example : pages database from_50 logs three (λ n. n) 2 2 ≡ take (2 * 2) three
list_logs-pages_example =
    list_logs-pages database from_50 logs three (λ n. n) 2 2 three-perm three-Descending
      three-NoTies

-- Two logins of one time: the second page, by a statement that turns them round, gives the first
-- of them again, and no page gives the other.
abbrev tied : ℕ → AuditRecord
tied n = record (login_at 60) { id = n ∷ [] }

tie_repeated : pages database from_50 (tied 1 ∷ tied 2 ∷ []) [] (λ n. n) 1 2 ≡ tied 1 ∷ tied 1 ∷ []
unfolding list_logs selected_logs passes
tie_repeated = refl
