-- ===== src/Database/Leads.antt =====
-- From tables with one property to tables with another, whether an action returns or fails.
use go_api_project_template.Prelude.{ℕ, Bool}
use go_api_project_template.Errs.{Result, ok, err}
use go_api_project_template.Database.{continue, World, Outcome, Exec, ◌>>=◌, sql}
use go_api_project_template.Database.Keeps.{Keeps, Sound, sql-Holds}
use go_api_project_template.Database.Ensures.{Ensures, Promise}

pub record Leads {D A : Type 0} (Q P : D → Type 0) (m : Exec D A) : Type 0 where
  pub at : (w : World D) → Q w.db → P (m w).1.db

-- The state after a failed first part already has the property; a returned value promises more.
continue-Leads :
    {D A B : Type 0} (P : D → Type 0) (R : A → D → Type 0) (r : Result A) (f : A → Exec D B)
    (w : World D)
    → P w.db
    → Promise R r w.db
    → ((a : A) → Leads (R a) P (f a))
    → P (continue r f w).1.db
continue-Leads P R (ok a) f w p q kf = (kf a).at w q
continue-Leads P R (err e) f w p q kf = p

kept_Promise :
    {D A : Type 0} (P : D → Type 0) (r : Result A) (d : D) → P d → Promise (λ (a : A) d'. P d') r d
kept_Promise P (ok a) d p = p
kept_Promise P (err e) d p = tt

module _ {D A : Type 0} {Q P : D → Type 0} where
  pub Leads-Keeps : (m : Exec D A) → ((d : D) → Q d → P d) → Keeps P m → Leads Q P m
  Leads-Keeps m h k = record { at = λ w q. k.at w (h w.db q) }

  pub Leads-sql :
      (fault : ℕ → Bool) (f : D → Outcome D A)
      → ((d : D) → Q d → P d)
      → ((d : D) → Q d → Sound P (f d))
      → Leads Q P (sql fault f)
  Leads-sql fault f h s = record { at = λ w q. sql-Holds P fault f w (h w.db q) (s w.db q).holds }

  pub Leads-bind :
      {B : Type 0} (R : A → D → Type 0) (m : Exec D A) (f : A → Exec D B)
      → Leads Q P m
      → Ensures Q m R
      → ((a : A) → Leads (R a) P (f a))
      → Leads Q P (m >>= f)
  unfolding ◌>>=◌
  Leads-bind R m f km em kf = record {
    at = λ w q. continue-Leads P R (m w).0 f (m w).1 (km.at w q) (em.at w q) kf;
  }

  -- What follows keeps the property, whatever the value.
  pub Leads-then :
      {B : Type 0} (m : Exec D A) (f : A → Exec D B)
      → Leads Q P m
      → ((a : A) → Keeps P (f a))
      → Leads Q P (m >>= f)
  unfolding ◌>>=◌
  Leads-then m f km kf = record {
    at = λ w q.
        continue-Leads P (λ a d. P d) (m w).0 f (m w).1 (km.at w q)
          (kept_Promise P (m w).0 (m w).1.db (km.at w q)) (λ a. record { at = (kf a).at });
  }
