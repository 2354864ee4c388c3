-- ===== src/Rollout/Keeps.antt =====
-- Calls that keep a property of the database, whether they return or raise: a rule for each way
-- to build a call.
use agent_gtd.Prelude.{ℕ, ◌≡◌, Bool, true, false, if◌then◌else◌, arith}
use agent_gtd.Exceptions.{AgentGtdError, Result, ok, err}
use agent_gtd.Rollout.Db.{
  Db, Call, continue, ◌>>=◌, return, raise, fetch, execute, refuse_if, when, get_rollout,
}

pub record Keeps {A : Type 0} (P : Db → Type 0) (m : Call A) : Type 0 where
  pub at : (s : Db) → P s → P (m s).1

get_rollout-reads : (user rid : ℕ) (s : Db) → (get_rollout user rid s).1 ≡ s
unfolding get_rollout
get_rollout-reads user rid s = ground arith

module _ {P : Db → Type 0} where
  pub Keeps-return : {A : Type 0} (a : A) → Keeps P (return a)
  Keeps-return a = record { at = λ s h. h }

  pub Keeps-raise : {A : Type 0} (e : AgentGtdError) → Keeps P (raise {A = A} e)
  Keeps-raise e = record { at = λ s h. h }

  pub Keeps-fetch : {A : Type 0} (f : Db → A) → Keeps P (fetch f)
  Keeps-fetch f = record { at = λ s h. h }

  pub Keeps-execute : (f : Db → Db) → ((s : Db) → P s → P (f s)) → Keeps P (execute f)
  Keeps-execute f h = record { at = h }

  pub Keeps-refuse_if : (b : Bool) (e : AgentGtdError) → Keeps P (refuse_if b e)
  Keeps-refuse_if true e = record { at = λ s h. h }
  Keeps-refuse_if false e = record { at = λ s h. h }

  pub Keeps-when : (b : Bool) (m : Call Unit) → Keeps P m → Keeps P (when b m)
  Keeps-when true m k = k
  Keeps-when false m k = record { at = λ s h. h }

  pub Keeps-if :
      {A : Type 0} (b : Bool) (m n : Call A) → Keeps P m → Keeps P n → Keeps P (if b then m else n)
  Keeps-if true m n k l = k
  Keeps-if false m n k l = l

  pub Keeps-get_rollout : (user rid : ℕ) → Keeps P (get_rollout user rid)
  Keeps-get_rollout user rid = record { at = λ s h. rw (get_rollout-reads user rid s) h }

  continue-keeps :
      {A B : Type 0} (r : Result A) (f : A → Call B) (s : Db)
      → ((a : A) → Keeps P (f a))
      → P s
      → P (continue r f s).1
  continue-keeps (ok a) f s k h = (k a).at s h
  continue-keeps (err e) f s k h = h

  pub Keeps-bind :
      {A B : Type 0} (m : Call A) (f : A → Call B)
      → Keeps P m
      → ((a : A) → Keeps P (f a))
      → Keeps P (m >>= f)
  Keeps-bind m f km kf = record { at = λ s h. continue-keeps (m s).0 f (m s).1 kf (km.at s h) }

pub ruleset keeps_rules = (
  Keeps-return, Keeps-raise, Keeps-fetch, Keeps-refuse_if, Keeps-when, Keeps-if, Keeps-get_rollout,
  Keeps-bind,
)
