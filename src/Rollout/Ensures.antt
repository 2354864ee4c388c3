-- ===== src/Rollout/Ensures.antt =====
-- What a call that returns has established: a rule for each way to build a call.
use mathlib.Core.Path.{subst}
use agent_gtd.Prelude.{◌≡◌, refl, Bool, true, false, arith}
use agent_gtd.Exceptions.{AgentGtdError, Result, ok, err}
use agent_gtd.Rollout.Db.{Db, Call, continue, ◌>>=◌, return, raise, fetch, execute, refuse_if}
use agent_gtd.Rollout.Keeps.{Keeps}

-- From `P`, a call that returns `a` leaves `Q a`.
pub record Ensures {A : Type 0} (P : Db → Type 0) (m : Call A) (Q : A → Db → Type 0) : Type 0 where
  pub after : (s : Db) → P s → (a : A) → (m s).0 ≡ ok a → Q a (m s).1

pub ok-injective : {A : Type 0} (a b : A) → ok a ≡ ok b → a ≡ b
ok-injective a b h = cc

continue-ensures :
    {A B : Type 0} (R : A → Db → Type 0) (Q : B → Db → Type 0) (r : Result A) (f : A → Call B)
    (s : Db)
    → ((a : A) → r ≡ ok a → R a s)
    → ((a : A) → Ensures (R a) (f a) Q)
    → (b : B) → (continue r f s).0 ≡ ok b
    → Q b (continue r f s).1
continue-ensures R Q (ok a) f s h k b e = (k a).after s (h a refl) b e
continue-ensures R Q (err x) f s h k b e = ground arith

module _ {P : Db → Type 0} where
  pub Ensures-raise : {A : Type 0} (e : AgentGtdError) (Q : A → Db → Type 0) → Ensures P (raise e) Q
  Ensures-raise e Q = record { after = λ s h a r. ground arith }

  pub Ensures-fetch : {A : Type 0} (f : Db → A) → Ensures P (fetch f) (λ a s. (a ≡ f s) × P s)
  Ensures-fetch f = record { after = λ s h a r. (cc, h) }

  pub Ensures-execute :
      (f : Db → Db) (Q : Db → Type 0)
      → ((s : Db) → P s → Q (f s))
      → Ensures P (execute f) (λ a s. Q s)
  Ensures-execute f Q k = record { after = λ s h a r. k s h }

  pub Ensures-refuse_if :
      (b : Bool) (e : AgentGtdError) → Ensures P (refuse_if b e) (λ a s. (b ≡ false) × P s)
  Ensures-refuse_if true e = record { after = λ s h a r. ground arith }
  Ensures-refuse_if false e = record { after = λ s h a r. (refl, h) }

  pub Ensures-Keeps : {A : Type 0} (m : Call A) → Keeps P m → Ensures P m (λ a s. P s)
  Ensures-Keeps m k = record { after = λ s h a r. k.at s h }

  pub Ensures-bind :
      {A B : Type 0} (R : A → Db → Type 0) (Q : B → Db → Type 0) (m : Call A) (f : A → Call B)
      → Ensures P m R
      → ((a : A) → Ensures (R a) (f a) Q)
      → Ensures P (m >>= f) Q
  Ensures-bind R Q m f km kf = record {
    after = λ s h b e. continue-ensures R Q (m s).0 f (m s).1 (km.after s h) kf b e;
  }

  pub Ensures-return :
      {A : Type 0} (a : A) (Q : A → Db → Type 0) → ((s : Db) → P s → Q a s) → Ensures P (return a) Q
  Ensures-return a Q k = record {
    after = λ s h b e. subst (λ c. Q c s) (ok-injective a b e) (k s h);
  }

  -- A stronger end.
  pub Ensures-weaken :
      {A : Type 0} (R Q : A → Db → Type 0) (m : Call A)
      → Ensures P m R
      → ((a : A) (s : Db) → R a s → Q a s)
      → Ensures P m Q
  Ensures-weaken R Q m k w = record { after = λ s h a e. w a (m s).1 (k.after s h a e) }
