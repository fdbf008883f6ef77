-- ===== src/Redis.antt =====
-- The Redis server as its clients see it: an interface, which the code under backend/ takes as an
-- argument. INCR is used only on keys that hold a counter.
pub mod Model
use feature_frontend.Prelude.{
  ℕ, suc, ◌+◌, ◌≡◌, Bool, true, false, Option, none, some, if◌then◌else◌, ltb,
}
use feature_frontend.Prelude.Text.{Text, text_eq}

pub record Redis (Store : Type 0) : Type 0 where
  -- GET: the value of a key that has not expired.
  pub get : Store → Text → Option Text
  -- The number under a key, 0 where there is none: what INCR adds 1 to.
  pub counter : Store → Text → ℕ
  pub incr : Store → Text → Store
  pub expire : Store → Text → ℕ → Store
  -- SET key value EX seconds
  pub set_ex : Store → Text → Text → ℕ → Store
  pub delete : Store → Text → Store
  -- Seconds pass.
  pub wait : Store → ℕ → Store
  pub counter-incr :
      (s : Store) (k j : Text)
      → counter (incr s k) j ≡ (if text_eq k j then suc (counter s k) else counter s j)
  pub get-incr : (s : Store) (k j : Text) → text_eq k j ≡ false → get (incr s k) j ≡ get s j
  pub counter-expire :
      (s : Store) (k j : Text) (n : ℕ) → counter (expire s k (suc n)) j ≡ counter s j
  pub get-expire : (s : Store) (k j : Text) (n : ℕ) → get (expire s k (suc n)) j ≡ get s j
  pub get-set :
      (s : Store) (k v : Text) (n : ℕ) (j : Text)
      → get (set_ex s k v (suc n)) j ≡ (if text_eq k j then some v else get s j)
  pub counter-set :
      (s : Store) (k v : Text) (n : ℕ) (j : Text)
      → text_eq k j ≡ false
      → counter (set_ex s k v n) j ≡ counter s j
  pub get-delete :
      (s : Store) (k j : Text) → get (delete s k) j ≡ (if text_eq k j then none else get s j)
  pub counter-delete :
      (s : Store) (k j : Text) → counter (delete s k) j ≡ (if text_eq k j then 0 else counter s j)
  -- A value that was set to expire is there for exactly that many seconds.
  pub get-wait :
      (s : Store) (k v : Text) (n m : ℕ)
      → get (wait (set_ex s k v n) m) k ≡ (if ltb m n then some v else none)
