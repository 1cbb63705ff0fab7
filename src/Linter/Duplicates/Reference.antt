-- ===== src/Linter/Duplicates/Reference.antt =====
-- Repeated simple rules as a nested loop: each rule against the rules before it.
use miharbor.Base.{ℕ, Bool, ◌&&◌, Option, none, some, List, [], ◌∷◌, ◌++◌, if◌then◌else◌}
use miharbor.Base.Text.{Text, text_eq}
use miharbor.Rules.{Rule, simple, logical, match, SimpleRule, IndexedRule}
use miharbor.Linter.Issue.{Issue}
use miharbor.Linter.Duplicates.{key_of, intra_issues, cross_issues, Origin}

abbrev pub has_key : Text → SimpleRule → Bool
has_key k s = text_eq (key_of s) k

abbrev pub has_key_in : Text → Text → SimpleRule → Bool
has_key_in target k s = text_eq s.target target && text_eq (key_of s) k

abbrev pub origin : ℕ → Rule → (SimpleRule → Bool) → Option Origin
origin index (simple s) p = if p s then some (record { index = index; target = s.target }) else none
origin index (logical op cs t) p = none
origin index (match t) p = none

abbrev pub or_else : {A : Type 0} → Option A → Option A → Option A
or_else none o = o
or_else (some a) o = some a

-- The first simple rule of the list that passes.
unfoldable pub first_of : (SimpleRule → Bool) → List IndexedRule → Option Origin
first_of p [] = none
first_of p (r ∷ rs) = or_else (origin r.index r.rule p) (first_of p rs)

abbrev pub index_of : Option Origin → Option ℕ
index_of none = none
index_of (some o) = some o.index

-- The issues of a rule after `earlier`.
unfoldable pub repeats_after : List IndexedRule → ℕ → Rule → List Issue
unfolding first_of intra_issues cross_issues
repeats_after earlier index (simple s) =
    intra_issues index s (index_of (first_of (has_key_in s.target (key_of s)) earlier))
    ++ cross_issues index s (first_of (has_key (key_of s)) earlier)
repeats_after earlier index (logical op cs t) = []
repeats_after earlier index (match t) = []

unfoldable pub nested_loop : List IndexedRule → List IndexedRule → List Issue
unfolding repeats_after
nested_loop earlier [] = []
nested_loop earlier (r ∷ rs) =
    repeats_after earlier r.index r.rule ++ nested_loop (earlier ++ r ∷ []) rs
