-- ===== src/Audit/Order.antt =====
-- `AuditLogService._base_query` of backend/admin/services.py orders by a time alone: where no two
-- rows share it, every statement gives the same order.
use mathlib.Core.Logic.Or
use mathlib.Core.List.{Mem, Perm, mem-cons, mem-cons_self, mem-cons_of_mem, not-mem-nil}
use mathlib.Core.List.Perm
use mathlib.Core.Path.{subst}
use native.Mathlib.Bridge.{le_prop}
use feature_frontend.Prelude.{ℕ, ◌≤◌, ◌≡◌, refl, ap, ◌∙◌, sym, List, [], ◌∷◌, All, keep_if, arith}
use feature_frontend.Audit.Log.{
  AuditRecord, LogFilters, Statements, Descending, passes, selected_logs,
}

-- No two records of a list are of one time.
abbrev pub NoTies : List AuditRecord → Type 0
NoTies rs = (r s : AuditRecord) → Mem r rs → Mem s rs → r.created_at ≡ s.created_at → r ≡ s

older :
    (t : ℕ) (r : AuditRecord) (rs : List AuditRecord)
    → All (λ s. s.created_at ≤ t) rs
    → Mem r rs
    → r.created_at ≤ t
older t r [] h m = absurd (not-mem-nil m)
older t r (s ∷ rs) (h, hs) m = Or.elim le_prop (mem-cons.0 m) (λ e. rw e h) (older t r rs hs)

newest :
    (r s : AuditRecord) (rs : List AuditRecord)
    → Descending (s ∷ rs)
    → Mem r (s ∷ rs)
    → r.created_at ≤ s.created_at
newest r s rs (below, h) m =
    Or.elim le_prop (mem-cons.0 m) (λ e. rw e (omega arith)) (older s.created_at r rs below)

-- Two descending lists of the same records are the same.
pub Descending-same :
    (rs ss : List AuditRecord) → Perm rs ss → Descending rs → Descending ss → NoTies rs → rs ≡ ss
Descending-same [] [] p hr hs apart = refl
Descending-same [] (s ∷ ss) p hr hs apart = absurd (not-mem-nil ((Perm.mem_iff p).1 mem-cons_self))
Descending-same (r ∷ rs) [] p hr hs apart = absurd (not-mem-nil ((Perm.mem_iff p).0 mem-cons_self))
Descending-same (r ∷ rs) (s ∷ ss) p hr hs apart =
    let there : Mem s (r ∷ rs) = (Perm.mem_iff p).1 mem-cons_self in
    let back : Mem r (s ∷ ss) = (Perm.mem_iff p).0 mem-cons_self in
    let times : r.created_at ≡ s.created_at =
      omega (arith, newest s r rs hr there, newest r s ss hs back) in
    let e : r ≡ s = apart r s mem-cons_self there times in
    let rest : Perm rs ss = Perm.cons_inv (subst (λ x. Perm (r ∷ rs) (x ∷ ss)) (sym e) p) in
    ap (λ x. x ∷ rs) e
    ∙ ap (◌∷◌ s) (
        Descending-same rs ss rest hr.1 hs.1
          (λ x y mx my. apart x y (mem-cons_of_mem r mx) (mem-cons_of_mem r my)))

-- The records that pass, newest first, when no two are of one time.
pub selected_logs-same :
    (db : Statements) (query : ℕ) (f : LogFilters) (logs ordered : List AuditRecord)
    → Perm ordered (keep_if (passes f) logs)
    → Descending ordered
    → NoTies ordered
    → selected_logs db query f logs ≡ ordered
unfolding selected_logs
selected_logs-same db query f logs ordered p sorted apart =
    let found = keep_if (passes f) logs in
    sym (
      Descending-same ordered (db.newest_first query found)
        (Perm.trans p (Perm.symm (db.newest_first-perm query found))) sorted
        (db.newest_first-Descending query found) apart)
