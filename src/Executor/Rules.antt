-- ===== src/Executor/Rules.antt =====
-- Rules for what an action does to the session, one for each way to build an action. A relation
-- between the session before and after, reflexive and transitive, is carried through a `do` block.
use skill2workflow.Prelude.{Bool, true, false, if◌then◌else◌}
use skill2workflow.Result.{Exc, Result, ok, err}
use skill2workflow.Executor.Session.{
  Session, Exec, pure, raise, lift, gets, continue, ◌>>=◌, or_else,
}

pub record IsPreorder (R : Session → Session → Type 0) : Type 0 where
  pub reflexive : (s : Session) → R s s
  pub transitive : (a b c : Session) → R a b → R b c → R a c

-- `m` leads along `R`, whether it returns or raises.
pub record Leads (R : Session → Session → Type 0) {A : Type 0} (m : Exec A) : Type 0 where
  pub at : (s : Session) → R s (m s).1

module _ {R : Session → Session → Type 0} (o : IsPreorder R) where
  pub Leads-pure : {A : Type 0} (a : A) → Leads R (pure a)
  unfolding pure
  Leads-pure a = record { at = λ s. o.reflexive s }

  pub Leads-raise : {A : Type 0} (e : Exc) → Leads R (raise {A = A} e)
  unfolding raise
  Leads-raise e = record { at = λ s. o.reflexive s }

  pub Leads-lift : {A : Type 0} (r : Result A) → Leads R (lift r)
  unfolding lift
  Leads-lift r = record { at = λ s. o.reflexive s }

  pub Leads-gets : {A : Type 0} (f : Session → A) → Leads R (gets f)
  unfolding gets
  Leads-gets f = record { at = λ s. o.reflexive s }

  pub Leads-if :
      {A : Type 0} (b : Bool) (m n : Exec A) → Leads R m → Leads R n → Leads R (if b then m else n)
  Leads-if true m n km kn = km
  Leads-if false m n km kn = kn

  continue_leads :
      {A B : Type 0} (r : Result A) (f : A → Exec B) (s : Session)
      → ((a : A) → Leads R (f a))
      → R s (continue r f s).1
  continue_leads (ok a) f s kf = (kf a).at s
  continue_leads (err e) f s kf = o.reflexive s

  pub Leads-bind :
      {A B : Type 0} (m : Exec A) (f : A → Exec B)
      → Leads R m
      → ((a : A) → Leads R (f a))
      → Leads R (m >>= f)
  unfolding ◌>>=◌
  Leads-bind m f km kf = record {
    at = λ s.
        o.transitive s (m s).1 (continue (m s).0 f (m s).1).1 (km.at s)
          (continue_leads (m s).0 f (m s).1 kf);
  }

  pub Leads-or_else : (m k : Exec Bool) → Leads R m → Leads R k → Leads R (or_else m k)
  Leads-or_else m k km kk =
      Leads-bind m (λ done. if done then pure true else k) km
        (λ done. Leads-if done (pure true) k (Leads-pure true) kk)
