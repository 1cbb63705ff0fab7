-- ===== src/Linter/Duplicates.antt =====
-- `detectDuplicates` of packages/shared/src/linter/duplicates.ts, on the names that it collects
-- from the document: the groups with the nodes that they list, the proxies, the rule providers.
pub mod Reference
pub mod Equivalence
use miharbor.Base.{
  ℕ, Bool, true, false, ◌&&◌, ◌||◌, not, Option, none, some, List, [], ◌∷◌, ◌++◌, map,
  if◌then◌else◌, ◌==◌, keep,
}
use miharbor.Base.Text.{Text, text, text_eq}
use miharbor.Base.Dict.{lookup, insert}
use miharbor.Rules.{Rule, simple, logical, match, SimpleRule, IndexedRule}
use miharbor.Linter.Issue.{Issue, Level, error, warning, info, Value, num, txt, lit}
use Prim.Native.String.{String}

pub record Group : Type 0 where
  pub name : Text
  pub proxies : List Text

-- A set of texts, as the code asks it.
unfoldable pub has : Text → List Text → Bool
has t [] = false
has t (u ∷ us) = text_eq u t || has t us

abbrev builtin_targets : List Text
builtin_targets =
    text "DIRECT"
    ∷ text "REJECT"
    ∷ text "REJECT-DROP"
    ∷ text "PROXY"
    ∷ text "GLOBAL"
    ∷ text "PASS"
    ∷ []

unfoldable pub is_empty : Text → Bool
is_empty [] = true
is_empty (c ∷ t) = false

-- The names of the groups; a group without a name has none.
unfoldable pub group_names : List Group → List Text
unfolding is_empty
group_names [] = []
group_names (g ∷ gs) = if is_empty g.name then group_names gs else g.name ∷ group_names gs

abbrev dangling_node : Text → Text → Issue
dangling_node ref group = record {
  level = error;
  code = "LINTER_DANGLING_NODE_REFERENCE";
  path = lit "proxy-groups" ∷ txt group ∷ lit "proxies" ∷ [];
  params = ("ref", txt ref) ∷ ("group", txt group) ∷ [];
  suggestion = some (record {
    key = "suggestion_dangling_node_reference";
    params = ("ref", txt ref) ∷ ("group", txt group) ∷ [];
  });
}

-- The nodes of a group that are neither built in nor a proxy nor a group.
unfoldable pub node_issues : List Text → List Text → Text → List Text → List Issue
unfolding has
node_issues proxy_names groups name [] = []
node_issues proxy_names groups name (ref ∷ refs) =
    let rest = node_issues proxy_names groups name refs in
    if has ref builtin_targets || (has ref proxy_names || has ref groups)
    then rest
    else dangling_node ref name ∷ rest

unfoldable pub group_issues : List Text → List Text → List Group → List Issue
unfolding node_issues is_empty
group_issues proxy_names groups [] = []
group_issues proxy_names groups (g ∷ gs) =
    let rest = group_issues proxy_names groups gs in
    if is_empty g.name then rest else node_issues proxy_names groups g.name g.proxies ++ rest

abbrev target_of : Rule → Text
target_of (simple s) = s.target
target_of (logical op cs t) = t
target_of (match t) = t

abbrev dangling_group : ℕ → Text → Issue
dangling_group index target = record {
  level = error;
  code = "LINTER_DANGLING_GROUP_REFERENCE";
  path = lit "rules" ∷ num index ∷ [];
  params = ("target", txt target) ∷ [];
  suggestion = some (record {
    key = "suggestion_dangling_group_reference";
    params = ("target", txt target) ∷ [];
  });
}

abbrev dangling_ruleset : ℕ → Text → Issue
dangling_ruleset index provider = record {
  level = error;
  code = "LINTER_DANGLING_RULESET_REFERENCE";
  path = lit "rules" ∷ num index ∷ [];
  params = ("provider", txt provider) ∷ [];
  suggestion = some (record {
    key = "suggestion_dangling_ruleset_reference";
    params = ("provider", txt provider) ∷ [];
  });
}

-- A target that is neither empty nor built in nor a group.
unfoldable pub target_issues : List Text → ℕ → Text → List Issue
unfolding has is_empty
target_issues groups index t =
    if is_empty t || (has t builtin_targets || has t groups)
    then []
    else dangling_group index t ∷ []

unfoldable pub ruleset_issues : List Text → ℕ → Rule → List Issue
unfolding has
ruleset_issues providers index (simple s) =
    if text_eq s.type (text "RULE-SET") && not (has s.value providers)
    then dangling_ruleset index s.value ∷ []
    else []
ruleset_issues providers index (logical op cs t) = []
ruleset_issues providers index (match t) = []

unfoldable pub reference_issues : List Text → List Text → List IndexedRule → List Issue
unfolding target_issues ruleset_issues
reference_issues groups providers [] = []
reference_issues groups providers (r ∷ rs) =
    target_issues groups r.index (target_of r.rule)
    ++ (ruleset_issues providers r.index r.rule ++ reference_issues groups providers rs)

abbrev pub key_of : SimpleRule → Text
key_of s = s.type ++ (text ":" ++ s.value)

abbrev pub intra_group : ℕ → SimpleRule → ℕ → Issue
intra_group index s prior = record {
  level = warning;
  code = "LINTER_INTRA_GROUP_DUPLICATE";
  path = lit "rules" ∷ num index ∷ [];
  params =
      ("group", txt s.target) ∷ ("key", txt (key_of s)) ∷ ("duplicate_of_index", num prior) ∷ [];
  suggestion = some (record {
    key = "suggestion_intra_group_duplicate";
    params = ("group", txt s.target) ∷ ("duplicate_of_index", num prior) ∷ [];
  });
}

-- An entry of `firstByKey`.
pub record Origin : Type 0 where
  pub index : ℕ
  pub target : Text

abbrev pub cross_group : ℕ → SimpleRule → Origin → Issue
cross_group index s first = record {
  level = warning;
  code = "LINTER_CROSS_GROUP_DUPLICATE";
  path = lit "rules" ∷ num index ∷ [];
  params =
      ("firstAt", num first.index)
      ∷ ("firstTarget", txt first.target)
      ∷ ("currentTarget", txt s.target)
      ∷ ("key", txt (key_of s))
      ∷ [];
  suggestion = some (record {
    key = "suggestion_cross_group_duplicate";
    params =
        ("firstAt", num first.index)
        ∷ ("firstTarget", txt first.target)
        ∷ ("currentTarget", txt s.target)
        ∷ [];
  });
}

-- `seenPerGroup` and `firstByKey`.
pub record Seen : Type 0 where
  pub per_group : List (Text × List (Text × ℕ))
  pub first : List (Text × Origin)

-- The map of a group, empty where there is none yet.
unfoldable pub group_map : Option (List (Text × ℕ)) → List (Text × ℕ)
group_map none = []
group_map (some m) = m

unfoldable pub intra_issues : ℕ → SimpleRule → Option ℕ → List Issue
intra_issues index s none = []
intra_issues index s (some prior) = intra_group index s prior ∷ []

unfoldable pub cross_issues : ℕ → SimpleRule → Option Origin → List Issue
cross_issues index s none = []
cross_issues index s (some first) =
    if text_eq first.target s.target then [] else cross_group index s first ∷ []

abbrev pub prior : Seen → Text → Text → Option ℕ
prior seen target key = lookup key (group_map (lookup target seen.per_group))

-- `map.set(k, v)` where the lookup has found nothing.
abbrev pub add_missing : {V : Type 0} → Option V → Text → V → List (Text × V) → List (Text × V)
add_missing (some w) k v m = m
add_missing none k v m = insert k v m

-- The code writes into the map that `seenPerGroup` holds for the target.
abbrev pub next_per_group : ℕ → Text → Text → Seen → List (Text × List (Text × ℕ))
next_per_group index target key seen =
    insert target
      (add_missing (prior seen target key) key index (group_map (lookup target seen.per_group)))
      seen.per_group

abbrev pub next_first : ℕ → Text → Text → Seen → List (Text × Origin)
next_first index target key seen =
    add_missing (lookup key seen.first) key (record { index = index; target = target }) seen.first

unfoldable pub visit : ℕ → Rule → Seen → Seen × List Issue
unfolding intra_issues cross_issues
visit index (simple s) seen = (
  record {
    per_group = next_per_group index s.target (key_of s) seen;
    first = next_first index s.target (key_of s) seen;
  },
  intra_issues index s (prior seen s.target (key_of s))
      ++ cross_issues index s (lookup (key_of s) seen.first),
)
visit index (logical op cs t) seen = (seen, [])
visit index (match t) seen = (seen, [])

unfoldable pub repeats : Seen → List IndexedRule → List Issue
unfolding visit
repeats seen [] = []
repeats seen (r ∷ rs) =
    let (seen', issues) = visit r.index r.rule seen in issues ++ repeats seen' rs

unfoldable pub detect_duplicates :
    List Group → List Text → List Text → List IndexedRule → List Issue
unfolding group_names group_issues reference_issues repeats
detect_duplicates groups proxy_names providers rules =
    group_issues proxy_names (group_names groups) groups
    ++ (reference_issues (group_names groups) providers rules
        ++ repeats (record { per_group = []; first = [] }) rules)
