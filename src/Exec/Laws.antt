-- ===== src/Exec/Laws.antt =====
-- Splits on how a call ended, and what a chain of calls then does.
use weave_fs.Base.{some, Bool, true, false, ap, ◌≡◌, ◌⊎◌, inl, inr, refl, arith}
use weave_fs.Exec.{guard, Error, Result, ok, err, World, Exec, pure, ◌>>=◌, ◌>>◌, continue}

-- How a call ended, with the world behind it.
abbrev Ended : {A : Type 0} → Result A × World → Type 0
Ended {A} r =
    ((a : A) × (w : World) × (r ≡ (ok a, w))) ⊎ ((e : Error) × (w : World) × (r ≡ (err e, w)))

ended : {A : Type 0} (r : Result A) (w : World) → Ended (r, w)
ended (ok a) w = inl (a, w, refl)
ended (err e) w = inr (e, w, refl)

module _ {A : Type 0} where
  pub Exec-cases :
      (m : Exec A) (w : World)
      → ((a : A) × (w' : World) × (m w ≡ (ok a, w')))
        ⊎ ((e : Error) × (w' : World) × (m w ≡ (err e, w')))
  Exec-cases m w = ended (m w).0 (m w).1

module _ {A B : Type 0} where
  pub bind_ok :
      (m : Exec A) (f : A → Exec B) (w w' : World) (a : A) → m w ≡ (ok a, w') → (m >>= f) w ≡ f a w'
  bind_ok m f w w' a e = rw e

  pub bind_err :
      (m : Exec A) (f : A → Exec B) (w w' : World) (x : Error)
      → m w ≡ (err x, w')
      → (m >>= f) w ≡ (err x, w')
  bind_err m f w w' x e = rw e

  continue-eq-ok :
      (r : Result A) (f : A → Exec B) (w : World) (b : B) (w2 : World)
      → continue r f w ≡ (ok b, w2)
      → (a : A) × (w1 : World) × (◌≡◌ {A = Result A × World} (r, w) (ok a, w1))
        × (f a w1 ≡ (ok b, w2))
  continue-eq-ok (ok a) f w b w2 h = (a, w, refl, h)
  continue-eq-ok (err e) f w b w2 h = cc

  -- A chain that returned a value went through its first call.
  pub >>=-eq-ok :
      (m : Exec A) (f : A → Exec B) (w : World) (b : B) (w2 : World)
      → (m >>= f) w ≡ (ok b, w2)
      → (a : A) × (w1 : World) × (m w ≡ (ok a, w1)) × (f a w1 ≡ (ok b, w2))
  >>=-eq-ok m f w b w2 h = continue-eq-ok (m w).0 f (m w).1 b w2 h

pub result_of : {A : Type 0} (r : Result A × World) (x : Result A) → r.0 ≡ x → r ≡ (x, r.1)
result_of r x e = λ i. (e i, r.1)

continue_return :
    {B : Type 0} (r : Result (Unit {0})) (w : World) (new b : B) (w2 : World)
    → continue r (λ _. pure new) w ≡ (ok b, w2)
    → (new ≡ b) × (◌≡◌ {A = Result (Unit {0}) × World} (r, w) (ok tt, w2))
continue_return (ok u) w new b w2 h = ground arith
continue_return (err e) w new b w2 h = cc

-- A chain that ends by returning a value at hand returned that value.
pub >>-pure-eq-ok :
    {B : Type 0} (m : Exec (Unit {0})) (new : B) (w : World) (b : B) (w2 : World)
    → (m >> pure new) w ≡ (ok b, w2)
    → (new ≡ b) × (m w ≡ (ok tt, w2))
>>-pure-eq-ok m new w b w2 h = continue_return (m w).0 (m w).1 new b w2 h

-- A test that was passed held, and changed nothing.
pub guard-eq-ok :
    (b : Bool) (x : Error) (u : Unit {0}) (w w1 : World)
    → guard b x w ≡ (ok u, w1)
    → (b ≡ true) × (w ≡ w1)
guard-eq-ok true x u w w1 e = (refl, ap (λ y. y.1) e)
guard-eq-ok false x u w w1 e = absurd (cc e)

pub ok-injective : {A : Type 0} {a b : A} → ok a ≡ ok b → a ≡ b
ok-injective e = cc

pub some-injective : {A : Type 0} {a b : A} → some a ≡ some b → a ≡ b
some-injective e = cc
