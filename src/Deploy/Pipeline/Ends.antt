-- ===== src/Deploy/Pipeline/Ends.antt =====
-- How a run ends: a postcondition for its value and one for its exception, and the rules by which
-- they compose.
use miharbor.Base.{ℕ, true, false, refl, ◌≡◌, ◌⊎◌, List, [], ◌∷◌}
use miharbor.Deploy.Effects.{
  Result, ok, err, Error, thrown, Reply, returns, throws, Call, Trace, Act, did, M, and_then,
  handled, logged, answered,
}

pub data Ends {A : Type 0} (P : A → Trace → Type 0) (E : Error → Trace → Type 0)
    : Result A × Trace → Type 0 where
  returned : {a : A} {tr : Trace} → P a tr → Ends P E (ok a, tr)
  raised : {e : Error} {tr : Trace} → E e tr → Ends P E (err e, tr)

pub bind-Ends :
    {A B : Type 0} {P : A → Trace → Type 0} {Q : B → Trace → Type 0} {E : Error → Trace → Type 0}
    {r : Result A × Trace} {f : A → M B}
    → Ends P E r
    → ((a : A) (tr : Trace) → P a tr → Ends Q E (f a tr))
    → Ends Q E (and_then r f)
unfolding and_then
bind-Ends (returned h) k = k _ _ h
bind-Ends (raised h) k = raised h

pub catch-Ends :
    {A : Type 0} {P : A → Trace → Type 0} {E F : Error → Trace → Type 0} {r : Result A × Trace}
    {g : Error → M A}
    → Ends P E r
    → ((e : Error) (tr : Trace) → E e tr → Ends P F (g e tr))
    → Ends P F (handled r g)
unfolding handled
catch-Ends (returned h) k = returned h
catch-Ends (raised h) k = k _ _ h

pub call-Ends :
    {A : Type 0} {P : A → Trace → Type 0} {E : Error → Trace → Type 0} (k : Call) (tr : Trace)
    (r : Reply A)
    → ((a : A) → r ≡ returns a → P a (did k true ∷ tr))
    → ((msg : List ℕ) → r ≡ throws msg → E (thrown msg) (did k false ∷ tr))
    → Ends P E (logged k tr r)
unfolding logged
call-Ends k tr (returns a) h g = returned (h a refl)
call-Ends k tr (throws msg) h g = raised (g msg refl)

pub answer-Ends :
    {A : Type 0} {P : A → Trace → Type 0} {E : Error → Trace → Type 0} (tr : Trace) (r : Reply A)
    → ((a : A) → P a tr)
    → ((msg : List ℕ) → E (thrown msg) tr)
    → Ends P E (answered tr r)
unfolding answered
answer-Ends tr (returns a) h g = returned (h a)
answer-Ends tr (throws msg) h g = raised (g msg)

pub weaken-Ends :
    {A : Type 0} {P Q : A → Trace → Type 0} {E F : Error → Trace → Type 0} {r : Result A × Trace}
    → Ends P E r
    → ((a : A) (tr : Trace) → P a tr → Q a tr)
    → ((e : Error) (tr : Trace) → E e tr → F e tr)
    → Ends Q F r
weaken-Ends (returned h) p e = returned (p _ _ h)
weaken-Ends (raised h) p e = raised (e _ _ h)

-- The trace that a run leaves, where both ends say the same of it.
pub trace_end :
    {A : Type 0} {I : Trace → Type 0} {r : Result A × Trace} → Ends (λ _. I) (λ _. I) r → I r.1
trace_end (returned h) = h
trace_end (raised h) = h

-- Does the trace hold this act?
abbrev pub Has : Act → Trace → Type 0
Has x [] = ⊥
Has x (a ∷ tr) = (a ≡ x) ⊎ Has x tr

pub both_end :
    {A : Type 0} {P Q : A → Trace → Type 0} {E F : Error → Trace → Type 0} {r : Result A × Trace}
    → Ends P E r
    → Ends Q F r
    → Ends (λ a tr. P a tr × Q a tr) E r
both_end (returned h) (returned k) = returned (h, k)
both_end (raised h) (raised k) = raised h

pub end_value :
    {A : Type 0} {P : A → Trace → Type 0} {E : Error → Trace → Type 0} {a : A} {tr : Trace}
    → Ends P E (ok a, tr)
    → P a tr
end_value (returned h) = h
