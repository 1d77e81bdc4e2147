-- ===== src/Database/Returns.antt =====
-- Actions that always return a value, whatever statements fail: one rule for each way to build one.
use go_api_project_template.Prelude.{◌≡◌, refl, Bool, true, false, if◌then◌else◌, arith}
use go_api_project_template.Errs.{Result, ok, err, is_ok}
use go_api_project_template.Database.{World, Exec, continue, pure, attempt, ◌>>=◌}

pub record Returns {D A : Type 0} (m : Exec D A) : Type 0 where
  pub at : (w : World D) → is_ok (m w).0 ≡ true

module _ {D A : Type 0} where
  pub Returns-pure : (a : A) → Returns {D = D} (pure a)
  unfolding pure
  Returns-pure a = record { at = λ w. refl }

  pub Returns-attempt : (m : Exec D A) → Returns (attempt m)
  unfolding attempt
  Returns-attempt m = record { at = λ w. refl }

  pub Returns-if :
      (b : Bool) (m n : Exec D A) → Returns m → Returns n → Returns (if b then m else n)
  Returns-if true m n rm rn = rm
  Returns-if false m n rm rn = rn

module _ {D A B : Type 0} where
  continue-Returns :
      (r : Result A) (f : A → Exec D B) (w : World D)
      → is_ok r ≡ true
      → ((a : A) → Returns (f a))
      → is_ok (continue r f w).0 ≡ true
  continue-Returns (ok a) f w h rf = (rf a).at w
  continue-Returns (err e) f w h rf = ground arith

  pub Returns-bind :
      (m : Exec D A) (f : A → Exec D B) → Returns m → ((a : A) → Returns (f a)) → Returns (m >>= f)
  unfolding ◌>>=◌
  Returns-bind m f rm rf = record { at = λ w. continue-Returns (m w).0 f (m w).1 (rm.at w) rf }

pub ruleset returns_rules = (Returns-pure, Returns-attempt, Returns-if, Returns-bind)
