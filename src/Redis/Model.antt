-- ===== src/Redis/Model.antt =====
-- A server that keeps the laws: a function from keys to values with deadlines.
use feature_frontend.Prelude.{
  ℕ, suc, ◌+◌, ◌≡◌, refl, ap, Bool, true, false, Option, none, some, if◌then◌else◌, ltb, lt→ltb,
  ◌∙◌, arith, Bool-cases, inl, inr,
}
use feature_frontend.Prelude.Text.{Text, codes, text_eq, text_eq_iff}
use feature_frontend.Redis.{Redis}

pub record Entry : Type 0 where
  pub value : Text
  pub count : ℕ
  pub deadline : Option ℕ

pub record Server : Type 0 where
  pub now : ℕ
  pub cell : Text → Option Entry

abbrev pub empty : Server
empty = record { now = 0; cell = λ k. none }

abbrev alive_at : ℕ → Option ℕ → Bool
alive_at now none = true
alive_at now (some d) = ltb now d

abbrev live : ℕ → Option Entry → Option Entry
live now none = none
live now (some e) = if alive_at now e.deadline then some e else none

abbrev value_of : Option Entry → Option Text
value_of none = none
value_of (some e) = some e.value

abbrev count_of : Option Entry → ℕ
count_of none = 0
count_of (some e) = e.count

abbrev deadline_of : Option Entry → Option ℕ
deadline_of none = none
deadline_of (some e) = e.deadline

abbrev look : Server → Text → Option Entry
look s k = live s.now (s.cell k)

abbrev put : Server → Text → Option Entry → Server
put s k e = record s { cell = λ j. if text_eq k j then e else s.cell j }

abbrev incremented : Option Entry → Entry
incremented e = record { value = codes "n"; count = suc (count_of e); deadline = deadline_of e }

abbrev with_deadline : ℕ → Option Entry → Option Entry
with_deadline d none = none
with_deadline d (some e) = some (record e { deadline = some d })

abbrev get : Server → Text → Option Text
get s k = value_of (look s k)

abbrev pub counter : Server → Text → ℕ
counter s k = count_of (look s k)

abbrev incr : Server → Text → Server
incr s k = put s k (some (incremented (look s k)))

abbrev expire : Server → Text → ℕ → Server
expire s k n = put s k (with_deadline (s.now + n) (look s k))

abbrev set_ex : Server → Text → Text → ℕ → Server
set_ex s k v n = put s k (some (record { value = v; count = 1; deadline = some (s.now + n) }))

abbrev delete : Server → Text → Server
delete s k = put s k none

abbrev wait : Server → ℕ → Server
wait s n = record s { now = s.now + n }

-- What is live stays live when its deadline, or none, is kept.
live_count :
    (now : ℕ) (e : Option Entry)
    → count_of (live now (some (incremented (live now e)))) ≡ suc (count_of (live now e))
live_count now none = refl
live_count now (some e) = elim (Bool-cases (alive_at now e.deadline)) [
  | inl alive ↦ rw alive (rw alive)
  | inr dead ↦ rw dead
]

soon : (now n : ℕ) → ltb now (now + suc n) ≡ true
soon now n = lt→ltb _ _ (omega arith)

live_deadline :
    (now n : ℕ) (e : Option Entry)
    → count_of (live now (with_deadline (now + suc n) (live now e))) ≡ count_of (live now e)
live_deadline now n none = refl
live_deadline now n (some e) = elim (Bool-cases (alive_at now e.deadline)) [
  | inl alive ↦ rw alive (rw (soon now n))
  | inr dead ↦ rw dead
]

live_value :
    (now n : ℕ) (e : Option Entry)
    → value_of (live now (with_deadline (now + suc n) (live now e))) ≡ value_of (live now e)
live_value now n none = refl
live_value now n (some e) = elim (Bool-cases (alive_at now e.deadline)) [
  | inl alive ↦ rw alive (rw (soon now n))
  | inr dead ↦ rw dead
]

pub counter-incr :
    (s : Server) (k j : Text)
    → counter (incr s k) j ≡ (if text_eq k j then suc (counter s k) else counter s j)
counter-incr s k j = elim (Bool-cases (text_eq k j)) [
  | inl same ↦ rw same (live_count s.now (s.cell k))
  | inr other ↦ rw other
]

pub get-incr : (s : Server) (k j : Text) → text_eq k j ≡ false → get (incr s k) j ≡ get s j
get-incr s k j other = rw other

pub counter-expire :
    (s : Server) (k j : Text) (n : ℕ) → counter (expire s k (suc n)) j ≡ counter s j
counter-expire s k j n = elim (Bool-cases (text_eq k j)) [
  | inl same ↦
      rw same (live_deadline s.now n (s.cell k) ∙ ap (counter s) ((text_eq_iff k j).0 same))
  | inr other ↦ rw other
]

pub get-expire : (s : Server) (k j : Text) (n : ℕ) → get (expire s k (suc n)) j ≡ get s j
get-expire s k j n = elim (Bool-cases (text_eq k j)) [
  | inl same ↦ rw same (live_value s.now n (s.cell k) ∙ ap (get s) ((text_eq_iff k j).0 same))
  | inr other ↦ rw other
]

pub get-set :
    (s : Server) (k v : Text) (n : ℕ) (j : Text)
    → get (set_ex s k v (suc n)) j ≡ (if text_eq k j then some v else get s j)
get-set s k v n j = elim (Bool-cases (text_eq k j)) [
  | inl same ↦ rw same (rw (soon s.now n))
  | inr other ↦ rw other
]

pub counter-set :
    (s : Server) (k v : Text) (n : ℕ) (j : Text)
    → text_eq k j ≡ false
    → counter (set_ex s k v n) j ≡ counter s j
counter-set s k v n j other = rw other

pub get-delete :
    (s : Server) (k j : Text) → get (delete s k) j ≡ (if text_eq k j then none else get s j)
get-delete s k j = elim (Bool-cases (text_eq k j)) [ inl same ↦ rw same | inr other ↦ rw other ]

pub counter-delete :
    (s : Server) (k j : Text) → counter (delete s k) j ≡ (if text_eq k j then 0 else counter s j)
counter-delete s k j = elim (Bool-cases (text_eq k j)) [ inl same ↦ rw same | inr other ↦ rw other ]

text_eq_refl : (k : Text) → text_eq k k ≡ true
text_eq_refl k = (text_eq_iff k k).1 refl

shift : (now n m : ℕ) → ltb (now + m) (now + n) ≡ ltb m n
shift now n m = ground arith

pub get-wait :
    (s : Server) (k v : Text) (n m : ℕ)
    → get (wait (set_ex s k v n) m) k ≡ (if ltb m n then some v else none)
get-wait s k v n m = rw (text_eq_refl k) (
    rw (shift s.now n m)
      (elim (Bool-cases (ltb m n)) [ inl early ↦ rw early | inr late ↦ rw late ]))

abbrev pub redis : Redis Server
redis = record {
  get = get;
  counter = counter;
  incr = incr;
  expire = expire;
  set_ex = set_ex;
  delete = delete;
  wait = wait;
  counter-incr = counter-incr;
  get-incr = get-incr;
  counter-expire = counter-expire;
  get-expire = get-expire;
  get-set = get-set;
  counter-set = counter-set;
  get-delete = get-delete;
  counter-delete = counter-delete;
  get-wait = get-wait;
}
