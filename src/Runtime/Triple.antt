-- ===== src/Runtime/Triple.antt =====
-- What an action establishes: one condition where it returns, another where it throws.
use realtime_ops_platform.Prelude.{
  List, ◌∷◌, ◌≡◌, refl, subst, Bool, true, false, if◌then◌else◌, Option, none, some, ◌⊎◌, inl, inr,
}
use realtime_ops_platform.Runtime.Calls.{Call, Answer}
use realtime_ops_platform.Runtime.Monad.{
  Env, Outcome, Exception, Run, M, ok, err, and_then, pure, call, ◌>>=◌,
}
use realtime_ops_platform.Runtime.Keeps.{Keeps}

abbrev pub Post : {A : Type 0} → (A → List Call → Type 0) → (List Call → Type 0) → Run A → Type 0
Post Q E (ok a, h) = Q a h
Post Q E (err e, h) = E h

pub record Triple {A : Type 0} (P : List Call → Type 0) (Q : A → List Call → Type 0)
    (E : List Call → Type 0) (m : M A) : Type 0 where
  pub at : (h : List Call) → P h → Post Q E (m h)

module _ {P E : List Call → Type 0} {A : Type 0} {Q : A → List Call → Type 0} where
  -- what holds before whatever the calls were is at hand in the proof
  pub Triple-frame : {F : Type 0} (m : M A) → (F → Triple P Q E m) → Triple (λ h. F × P h) Q E m
  Triple-frame m k = record { at = λ h (f, p). (k f).at h p }

  pub Triple-pure : (a : A) → ((h : List Call) → P h → Q a h) → Triple P Q E (pure a)
  unfolding pure
  Triple-pure a k = record { at = k }

module _ (E : List Call → Type 0) where
  call-Post :
      (c : Call) (Q : Answer c → List Call → Type 0) (o : Outcome (Answer c)) (h : List Call)
      → ((a : Answer c) → Q a h)
      → E h
      → Post Q E (o, h)
  call-Post c Q (ok a) h q e = q a
  call-Post c Q (err x) h q e = e

  answered-Post :
      (c : Call) (Q : Answer c → List Call → Type 0) (o : Outcome (Answer c)) (h : List Call)
      → ((a : Answer c) → o ≡ ok a → Q a h)
      → E h
      → Post Q E (o, h)
  answered-Post c Q (ok a) h q e = q a refl
  answered-Post c Q (err x) h q e = e

module _ {P E : List Call → Type 0} where
  -- A call is recorded whether it is answered or throws.
  pub Triple-call :
      (env : Env) (c : Call) {Q : Answer c → List Call → Type 0}
      → ((a : Answer c) (h : List Call) → P h → Q a (c ∷ h))
      → ((h : List Call) → P h → E (c ∷ h))
      → Triple P Q E (call env c)
  unfolding call
  Triple-call env c {Q} q e = record {
    at = λ h p. call-Post E c Q (env.answer h c) (c ∷ h) (λ a. q a h p) (e h p);
  }

  -- a call whose answer matters
  pub Triple-answered :
      (env : Env) (c : Call) {Q : Answer c → List Call → Type 0}
      → ((a : Answer c) (h : List Call) → env.answer h c ≡ ok a → P h → Q a (c ∷ h))
      → ((h : List Call) → P h → E (c ∷ h))
      → Triple P Q E (call env c)
  unfolding call
  Triple-answered env c {Q} q e = record {
    at = λ h p. answered-Post E c Q (env.answer h c) (c ∷ h) (λ a s. q a h s p) (e h p);
  }

module _ {E : List Call → Type 0} {A B : Type 0} {R : A → List Call → Type 0}
    {Q : B → List Call → Type 0} where
  bind-Post :
      (r : Run A) (f : A → M B)
      → Post R E r
      → ((a : A) → Triple (R a) Q E (f a))
      → Post Q E (and_then r f)
  bind-Post (ok a, h) f p k = (k a).at h p
  bind-Post (err e, h) f p k = p

module _ {P E : List Call → Type 0} {A B : Type 0} {R : A → List Call → Type 0}
    {Q : B → List Call → Type 0} where
  pub Triple-bind :
      (m : M A) (f : A → M B)
      → Triple P R E m
      → ((a : A) → Triple (R a) Q E (f a))
      → Triple P Q E (m >>= f)
  unfolding ◌>>=◌
  Triple-bind m f km kf = record { at = λ h p. bind-Post (m h) f (km.at h p) kf }

module _ {P E : List Call → Type 0} {A B : Type 0} {Q : B → List Call → Type 0} where
  skip-Post :
      (r : Run A) (f : A → M B)
      → P r.1
      → ((h : List Call) → P h → E h)
      → ((a : A) → Triple P Q E (f a))
      → Post Q E (and_then r f)
  skip-Post (ok a, h) f p e k = (k a).at h p
  skip-Post (err x, h) f p e k = e h p

  -- A step that keeps the condition, whether it returns or throws.
  pub Triple-skip :
      (m : M A) (f : A → M B)
      → Keeps P m
      → ((h : List Call) → P h → E h)
      → ((a : A) → Triple P Q E (f a))
      → Triple P Q E (m >>= f)
  unfolding ◌>>=◌
  Triple-skip m f km e kf = record { at = λ h p. skip-Post (m h) f (km.at h p) e kf }

-- From what holds at each exit to the condition of an action that returns nothing.
pub Post-of :
    (Q E : List Call → Type 0) (r : Run (Unit {0}))
    → (r.0 ≡ ok tt → Q r.1)
    → E r.1
    → Post (λ _ h. Q h) E r
Post-of Q E (ok u, h) q e = q refl
Post-of Q E (err x, h) q e = e

ok_injective {ℓ} : {A : Type ℓ} {a b : A} → ok a ≡ ok b → a ≡ b
ok_injective e = cc

module _ {A : Type 0} (Q : A → List Call → Type 0) (E : List Call → Type 0) where
  pub returned : (r : Run A) (a : A) → r.0 ≡ ok a → Post Q E r → Q a r.1
  returned (ok b, h) a e q = subst (λ c. Q c h) (ok_injective e) q
  returned (err x, h) a e q = cc

  -- A condition that both exits give.
  pub either_way :
      (R : List Call → Type 0)
      → ((a : A) (h : List Call) → Q a h → R h)
      → ((h : List Call) → E h → R h)
      → (r : Run A) → Post Q E r
      → R r.1
  either_way R q e (ok a, h) p = q a h p
  either_way R q e (err x, h) p = e h p

module _ {A : Type 0} {P E : List Call → Type 0} {Q : A → List Call → Type 0} where
  Keeps-Post :
      (r : Run A)
      → P r.1
      → ((a : A) (h : List Call) → P h → Q a h)
      → ((h : List Call) → P h → E h)
      → Post Q E r
  Keeps-Post (ok a, h) p q e = q a h p
  Keeps-Post (err x, h) p q e = e h p

  pub Triple-Keeps :
      (m : M A)
      → Keeps P m
      → ((a : A) (h : List Call) → P h → Q a h)
      → ((h : List Call) → P h → E h)
      → Triple P Q E m
  Triple-Keeps m k q e = record { at = λ h p. Keeps-Post (m h) (k.at h p) q e }

  pub Triple-if :
      (b : Bool) (m n : M A)
      → (b ≡ true → Triple P Q E m)
      → (b ≡ false → Triple P Q E n)
      → Triple P Q E (if b then m else n)
  Triple-if true m n km kn = km refl
  Triple-if false m n km kn = kn refl

-- The answers of a `findOne`.
pub found_cases :
    {A : Type 0} (o : Outcome (Option A))
    → ((found : A) × (o ≡ ok (some found))) ⊎ (o ≡ ok none) ⊎ ((e : Exception) × (o ≡ err e))
found_cases (ok (some found)) = inl (found, refl)
found_cases (ok none) = inr (inl refl)
found_cases (err e) = inr (inr (e, refl))

pub outcome_cases :
    {A : Type 0} (o : Outcome A) → ((a : A) × (o ≡ ok a)) ⊎ ((e : Exception) × (o ≡ err e))
outcome_cases (ok a) = inl (a, refl)
outcome_cases (err e) = inr (e, refl)
