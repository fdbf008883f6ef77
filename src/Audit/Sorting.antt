-- ===== src/Audit/Sorting.antt =====
-- A database that keeps the laws of the statements of backend/admin/services.py: it sorts by
-- insertion. Of rows of one time, the first statement gives the older row of the table first, the
-- others the newer one.
use mathlib.Core.List.{Perm}
use mathlib.Core.List.Perm
use feature_frontend.Prelude.{
  ℕ, zero, suc, ◌≤◌, ◌≡◌, Bool, true, false, List, [], ◌∷◌, All, ltb, leb, if◌then◌else◌, arith,
  Bool-cases, inl, inr,
}
use feature_frontend.Audit.Log.{AuditRecord, Statements, Descending}

abbrev before : (query : ℕ) → AuditRecord → AuditRecord → Bool
before zero r s = leb s.created_at r.created_at
before (suc n) r s = ltb s.created_at r.created_at

abbrev insert : (query : ℕ) → AuditRecord → List AuditRecord → List AuditRecord
insert n r [] = r ∷ []
insert n r (s ∷ ss) = let rest = insert n r ss in if before n r s then r ∷ s ∷ ss else s ∷ rest

abbrev sort : (query : ℕ) → List AuditRecord → List AuditRecord
sort n [] = []
sort n (r ∷ rs) = insert n r (sort n rs)

insert-perm : (n : ℕ) (r : AuditRecord) (ss : List AuditRecord) → Perm (insert n r ss) (r ∷ ss)
insert-perm n r [] = Perm.refl (r ∷ [])
insert-perm n r (s ∷ ss) = elim (Bool-cases (before n r s)) [
  | inl first ↦ rw first (Perm.refl (r ∷ s ∷ ss))
  | inr later ↦ rw later (Perm.trans (Perm.cons s (insert-perm n r ss)) (Perm.swap r s ss))
]

pub sort-perm : (n : ℕ) (rs : List AuditRecord) → Perm (sort n rs) rs
sort-perm n [] = Perm.refl []
sort-perm n (r ∷ rs) = Perm.trans (insert-perm n r (sort n rs)) (Perm.cons r (sort-perm n rs))

before-le : (n : ℕ) (r s : AuditRecord) → before n r s ≡ true → s.created_at ≤ r.created_at
before-le zero r s h = ground arith
before-le (suc n) r s h = ground arith

not_before-le : (n : ℕ) (r s : AuditRecord) → before n r s ≡ false → r.created_at ≤ s.created_at
not_before-le zero r s h = ground arith
not_before-le (suc n) r s h = ground arith

below_more :
    (a b : ℕ) (rs : List AuditRecord)
    → a ≤ b
    → All (λ s. s.created_at ≤ a) rs
    → All (λ s. s.created_at ≤ b) rs
below_more a b [] h below = tt
below_more a b (r ∷ rs) h (first, below) = (omega (arith, first, h), below_more a b rs h below)

insert-below :
    (n t : ℕ) (r : AuditRecord) (ss : List AuditRecord)
    → r.created_at ≤ t
    → All (λ s. s.created_at ≤ t) ss
    → All (λ s. s.created_at ≤ t) (insert n r ss)
insert-below n t r [] h below = (h, tt)
insert-below n t r (s ∷ ss) h (first, below) = elim (Bool-cases (before n r s)) [
  | inl here ↦ rw here (h, (first, below))
  | inr later ↦ rw later (first, insert-below n t r ss h below)
]

insert-Descending :
    (n : ℕ) (r : AuditRecord) (ss : List AuditRecord) → Descending ss → Descending (insert n r ss)
insert-Descending n r [] h = (tt, tt)
insert-Descending n r (s ∷ ss) (below, h) = elim (Bool-cases (before n r s)) [
  | inl here ↦
      let le = before-le n r s here in
      rw here ((le, below_more s.created_at r.created_at ss le below), (below, h))
  | inr later ↦ rw later (
    insert-below n s.created_at r ss (not_before-le n r s later) below,
    insert-Descending n r ss h,
  )
]

pub sort-Descending : (n : ℕ) (rs : List AuditRecord) → Descending (sort n rs)
sort-Descending n [] = tt
sort-Descending n (r ∷ rs) = insert-Descending n r (sort n rs) (sort-Descending n rs)

abbrev pub database : Statements
database = record {
  newest_first = sort;
  newest_first-perm = sort-perm;
  newest_first-Descending = sort-Descending;
}
