-- ===== src/Worker/Rules.antt =====
-- Postconditions of a worker's computations.
use cmorflow_tax_api.Common.{err, ok, String, Result, ◌∷◌, [], List}
use cmorflow_tax_api.Worker.{
  World, Outcome, returned, threw, died, M, continue, meet, tick, committed, transaction, caught,
  attempt, Fault, runs, throws, dies,
}

-- `Q` where the computation returns, `E` where it throws or dies.
abbrev pub Ensures :
    {A : Type 0} → (World → Type 0) → (A → World → Type 0) → Outcome A × World → Type 0
Ensures E Q (returned a, w) = Q a w
Ensures E Q (threw message, w) = E w
Ensures E Q (died, w) = E w

pub bind_rule :
    {A B : Type 0} (E : World → Type 0) (R : A → World → Type 0) (Q : B → World → Type 0)
    (r : Outcome A × World) (f : A → M B)
    → Ensures E R r
    → ((a : A) (w : World) → R a w → Ensures E Q (f a w))
    → Ensures E Q (continue r f)
bind_rule E R Q (returned a, w) f h k = k a w h
bind_rule E R Q (threw message, w) f h k = h
bind_rule E R Q (died, w) f h k = h

-- A predicate that does not look at the faults.
abbrev pub IgnoresFaults : (World → Type 0) → Type 0
IgnoresFaults P = (w : World) (fs : List Fault) → P w → P (record w { faults = fs })

pub tick_rule :
    (P : World → Type 0) → IgnoresFaults P → (w : World) → P w → Ensures P (λ _ w'. P w') (tick w)
unfolding tick
tick_rule P ignores w h = go w.faults
  where
    go : (fs : List Fault) → Ensures P (λ _ w'. P w') (meet fs w)
    go [] = h
    go (runs ∷ fs) = ignores w fs h
    go (throws message ∷ fs) = ignores w fs h
    go (dies ∷ fs) = ignores w fs h

-- One predicate kept all along.
pub keep_rule :
    {A B : Type 0} (P : World → Type 0) (r : Outcome A × World) (f : A → M B)
    → Ensures P (λ _ w. P w) r
    → ((a : A) (w : World) → P w → Ensures P (λ _ w'. P w') (f a w))
    → Ensures P (λ _ w. P w) (continue r f)
keep_rule P r f h k = bind_rule P (λ _ w. P w) (λ _ w. P w) r f h k

pub weaken :
    {A : Type 0} (E F : World → Type 0) (Q R : A → World → Type 0) (r : Outcome A × World)
    → ((w : World) → E w → F w)
    → ((a : A) (w : World) → Q a w → R a w)
    → Ensures E Q r
    → Ensures F R r
weaken E F Q R (returned a, w) e q h = q a w h
weaken E F Q R (threw message, w) e q h = e w h
weaken E F Q R (died, w) e q h = e w h

-- A transaction that throws or dies leaves the database as it was.
pub transaction_rule :
    {A : Type 0} (E : World → Type 0) (Q : A → World → Type 0) (m : M A) (w : World)
    → Ensures (λ w'. E (record w' { db = w.db })) Q (m w)
    → Ensures E Q (transaction m w)
unfolding transaction
transaction_rule {A} E Q m w h = go (m w) h
  where
    go :
        (r : Outcome A × World)
        → Ensures (λ w'. E (record w' { db = w.db })) Q r
        → Ensures E Q (committed w.db r)
    go (returned a, w') h = h
    go (threw message, w') h = h
    go (died, w') h = h

abbrev pub AfterTry :
    {A : Type 0} → (World → Type 0) → (A → World → Type 0) → Result String A → World → Type 0
AfterTry E Q (ok a) w = Q a w
AfterTry E Q (err message) w = E w

-- A handler starts where the body threw.
pub attempt_rule :
    {A : Type 0} (E : World → Type 0) (Q : A → World → Type 0) (m : M A) (w : World)
    → Ensures E Q (m w)
    → Ensures E (λ r w'. AfterTry E Q r w') (attempt m w)
unfolding attempt
attempt_rule {A} E Q m w h = go (m w) h
  where
    go : (r : Outcome A × World) → Ensures E Q r → Ensures E (λ r w'. AfterTry E Q r w') (caught r)
    go (returned a, w') h = h
    go (threw message, w') h = h
    go (died, w') h = h
