-- ===== src/Audit/Export.antt =====
-- `stream_csv` and `list_logs` of backend/admin/services.py: the batches and the pages together
-- have every row.
use feature_frontend.Prelude.{
  keep_if, drop-beyond, drop_add, take-drop, take_add, ℕ, zero, suc, ◌+◌, ◌-◌, ◌*◌, ◌≤◌, ◌<◌, ◌≡◌,
  refl, ap, ◌∙◌, sym, List, [], ◌∷◌, ◌++◌, length, map, All, take, drop, arith,
}
use mathlib.Core.List.{map-append, Perm}
use feature_frontend.Audit.Order.{NoTies, selected_logs-same}
use feature_frontend.Audit.Log.{
  AuditRecord, LogFilters, Printing, Statements, Descending, passes, audit_export_headers, csv_line,
  header_line, escape_csv_field, export_row, export_line, selected_logs, lines_then, export_batches,
  stream_csv, list_logs,
}
use feature_frontend.Audit.Csv.{IsSafe, IsRow, concat_texts, read_csv, read_csv-csv_line}

module _ (printing : Printing) where
  lines_then-split :
      (n : ℕ) (rs : List AuditRecord)
      → 1 ≤ n
      → lines_then printing (take n rs) (map (export_line printing) (drop n rs))
        ≡ map (export_line printing) rs
  lines_then-split zero rs h = absurd (omega (arith, h))
  lines_then-split (suc n) [] h = refl
  lines_then-split (suc n) (r ∷ rs) h = ap (◌∷◌ (export_line printing r)) (
      sym (map-append (export_line printing) (take n rs) (drop n rs))
      ∙ ap (map (export_line printing)) (take-drop n rs))

  header_line-csv_line : header_line ≡ csv_line audit_export_headers
  unfolding escape_csv_field
  header_line-csv_line = refl

  export_line-csv_line :
      (rs : List AuditRecord)
      → map (export_line printing) rs ≡ map csv_line (map (export_row printing) rs)
  export_line-csv_line [] = refl
  export_line-csv_line (r ∷ rs) = ap (◌∷◌ (export_line printing r)) (export_line-csv_line rs)

  abbrev pub ExportsSafely : AuditRecord → Type 0
  ExportsSafely r = All IsSafe (export_row printing r)

  exported-IsRow :
      (rs : List AuditRecord) → All ExportsSafely rs → All IsRow (map (export_row printing) rs)
  exported-IsRow [] safe = tt
  exported-IsRow (r ∷ rs) (safe, others) = ((omega arith, safe), exported-IsRow rs others)

  lines-read_csv :
      (rs : List AuditRecord)
      → All ExportsSafely rs
      → read_csv (concat_texts (header_line ∷ map (export_line printing) rs))
        ≡ audit_export_headers ∷ map (export_row printing) rs
  lines-read_csv rs safe =
      ap (λ line. read_csv (line ++ concat_texts (map (export_line printing) rs)))
        header_line-csv_line
      ∙ ap (λ ls. read_csv (csv_line audit_export_headers ++ concat_texts ls))
          (export_line-csv_line rs)
      ∙ read_csv-csv_line (audit_export_headers ∷ map (export_row printing) rs) (
        (omega arith, (refl, (refl, (refl, (refl, (refl, (refl, (refl, (refl, (refl, tt)))))))))),
        exported-IsRow rs safe,
      )

module _ (db : Statements) (f : LogFilters) (logs ordered : List AuditRecord) where
  abbrev Ordered : Type 0
  Ordered = (query : ℕ) → selected_logs db query f logs ≡ ordered

  -- The batches from an offset have all rows from it on.
  export_batches-drop :
      (printing : Printing) (fuel query batch_size offset : ℕ)
      → Ordered
      → 1 ≤ batch_size
      → length ordered < fuel + offset
      → export_batches db printing fuel query batch_size offset f logs
        ≡ map (export_line printing) (drop offset ordered)
  export_batches-drop printing zero query b offset same h enough =
      ap (map (export_line printing)) (sym (drop-beyond offset ordered (omega (arith, enough))))
  export_batches-drop printing (suc fuel) query b offset same h enough =
      ap
        (λ rs.
          lines_then printing (take b (drop offset rs))
            (export_batches db printing fuel (suc query) b (offset + b) f logs))
        (same query)
      ∙ ap (lines_then printing (take b (drop offset ordered))) (
          export_batches-drop printing fuel (suc query) b (offset + b) same h
            (omega (arith, enough, h))
          ∙ ap (map (export_line printing)) (drop_add offset b ordered))
      ∙ lines_then-split printing b (drop offset ordered) h

  -- Where no two records that pass the filters are of one time, by which alone a statement orders
  -- them, and every value with a carriage return also has a comma, a line feed or a quote: the
  -- export ends, and what it wrote is read back, by a reader of comma-separated values for which a
  -- carriage return ends a row as well, as the headers and then one row for each record that
  -- passes, the newest first, with the values it has. A batch has at least one row, and the log
  -- does not change between the batches; one pass of the loop more than there are records is
  -- enough.
  pub stream_csv-read_csv :
      (printing : Printing) (fuel query batch_size : ℕ)
      → Perm ordered (keep_if (passes f) logs)
      → Descending ordered
      → NoTies ordered
      → All (ExportsSafely printing) ordered
      → 1 ≤ batch_size
      → length ordered < fuel
      → read_csv (concat_texts (stream_csv db printing fuel query batch_size f logs))
        ≡ audit_export_headers ∷ map (export_row printing) ordered
  unfolding stream_csv
  stream_csv-read_csv printing fuel query b all_of sorted apart safe h enough =
      ap (λ lines. read_csv (concat_texts (header_line ∷ lines)))
        (export_batches-drop printing fuel query b 0
          (λ q. selected_logs-same db q f logs ordered all_of sorted apart) h
          (omega (arith, enough)))
      ∙ lines-read_csv printing ordered safe

  -- The records of the first pages, one after the other, each page by a statement of its own.
  abbrev pub pages : (queries : ℕ → ℕ) (page_size : ℕ) → ℕ → List AuditRecord
  pages queries page_size zero = []
  pages queries page_size (suc n) =
      pages queries page_size n ++ (list_logs db (queries n) (suc n) page_size f logs).0

  -- Where no two records that pass the filters are of one time, by which alone a statement orders
  -- them, and the log does not change from page to page: the first pages of the log together have
  -- the newest of those records in their order, as many as the pages hold, and none is left out
  -- between two pages or on two of them.
  pub list_logs-pages :
      (queries : ℕ → ℕ) (page_size n : ℕ)
      → Perm ordered (keep_if (passes f) logs)
      → Descending ordered
      → NoTies ordered
      → pages queries page_size n ≡ take (n * page_size) ordered
  unfolding list_logs
  list_logs-pages queries page_size zero all_of sorted apart =
      let e : 0 * page_size ≡ 0 = omega arith in rw e refl
  list_logs-pages queries page_size (suc n) all_of sorted apart =
      let e : suc n * page_size ≡ n * page_size + page_size = omega arith in
      let k : suc n - 1 ≡ n = omega arith in
      rw (e, k)
        (ap
            (λ rs.
              rs ++ take page_size (drop (n * page_size) (selected_logs db (queries n) f logs)))
            (list_logs-pages queries page_size n all_of sorted apart)
          ∙ ap (λ rs. take (n * page_size) ordered ++ take page_size (drop (n * page_size) rs))
              (selected_logs-same db (queries n) f logs ordered all_of sorted apart)
          ∙ sym (take_add (n * page_size) page_size ordered))
