-- ===== src/Action.antt =====
-- Methods that change a state and may raise. What was written before a raise stays written.
use human_review_console.Prelude.{◌≡◌, refl, Option, none, some}
use human_review_console.Errors.{Error, Result, ok, err}

abbrev pub Action : Type 0 → Type 0 → Type 0
Action W A = W → Result A × W

module _ {W A : Type 0} where
  abbrev pub pure : A → Action W A
  pure a w = (ok a, w)

  abbrev pub raise : Error → Action W A
  raise e w = (err e, w)

  -- A computation that raises or returns, and leaves the state alone.
  abbrev pub lift : Result A → Action W A
  lift r w = (r, w)

  abbrev pub gets : (W → A) → Action W A
  gets f w = (ok (f w), w)

  -- `if value is None: raise`
  abbrev pub require : Error → Option A → Action W A
  require e none = raise e
  require e (some a) = pure a

abbrev pub modify : {W : Type 0} → (W → W) → Action W (Unit {0})
modify f w = (ok tt, f w)

abbrev pub continue : {W A B : Type 0} → (A → Action W B) → Result A → Action W B
continue f (ok a) w = f a w
continue f (err e) w = (err e, w)

infixl 5 ◌>>=◌ ◌>>◌
abbrev pub ◌>>=◌ : {W A B : Type 0} → Action W A → (A → Action W B) → Action W B
◌>>=◌ m f w = let (r, v) = m w in continue f r v

abbrev pub ◌>>◌ : {W A B : Type 0} → Action W A → Action W B → Action W B
m >> k = m >>= λ _. k

-- What the clauses of an `except` make of a result.
abbrev pub rescued : {A : Type 0} → (Error → Error) → Result A → Result A
rescued clauses (ok a) = ok a
rescued clauses (err e) = err (clauses e)

-- `try: ... except`, where each clause raises another error and keeps the state.
abbrev pub rescue : {W A : Type 0} → (Error → Error) → Action W A → Action W A
rescue clauses m w = let (r, v) = m w in (rescued clauses r, v)

-- What a route answers to a result: the value's model, or another error.
abbrev pub answer : {W A B : Type 0} → (Error → Error) → (A → B) → Result A × W → Result B × W
answer clauses model (ok a, v) = (ok (model a), v)
answer clauses model (err e, v) = (err (clauses e), v)

pub rescue-answer :
    {W A B : Type 0} (clauses : Error → Error) (model : A → B) (m : Action W A) (w : W)
    → (rescue clauses m >>= λ a. pure (model a)) w ≡ answer clauses model (m w)
rescue-answer {W} {A} clauses model m w = go (m w)
  where
    go :
        (x : Result A × W)
        → continue (λ a. pure (model a)) (rescued clauses x.0) x.1 ≡ answer clauses model x
    go (ok a, v) = refl
    go (err e, v) = refl

-- Neither returning a value nor an `except` changes the state.
pub continue-pure :
    {W A B : Type 0} (f : A → B) (r : Result A) (w : W)
    → (continue (λ (x : A). pure (f x)) r w).1 ≡ w
continue-pure f (ok a) w = refl
continue-pure f (err e) w = refl

pub continue-lift :
    {W A B : Type 0} (f : A → Result B) (r : Result A) (w : W)
    → (continue (λ (x : A). lift (f x)) r w).1 ≡ w
continue-lift f (ok a) w = refl
continue-lift f (err e) w = refl
