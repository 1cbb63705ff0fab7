-- ===== src/Deploy/Tests.antt =====
-- The deploy theorems at concrete drafts and contexts.
use miharbor.Base.{List, ℕ, Option, ◌≡◌, refl, true, false, none, some, [], ◌∷◌, if◌then◌else◌}
use miharbor.Base.Text.{Text, text, text_eq}
use miharbor.Base.Yaml.{Yaml, str, map, seq, Pairs, end, pair, Items, nil, cons, get, as_text}
use miharbor.Deploy.Effects.{
  by_user, Config, Context, Trace, Reply, ok, returns, throws, and_then, logged, answered, handled,
}
use miharbor.Deploy.Pipeline.{run_pipeline, PipelineResult}
use miharbor.Deploy.Pipeline.Safety.{WritesChecked, writes_checked}
use miharbor.Deploy.Pipeline.Rollbacks.{
  RollbacksAllowed, rollbacks_allowed, Applied, success-Applied,
}
use miharbor.Deploy.Retention.{SnapshotMeta, RetentionConfig, apply_retention}
use miharbor.Deploy.Retention.Cutoff.{kept, removed, apply_retention-cut}
use miharbor.Deploy.Sentinels.{
  resolve_view_sentinels, meta_secret_sentinel, wireguard_private_key_sentinel,
  wireguard_pre_shared_key_sentinel,
}
use miharbor.Deploy.Sentinels.Unchanged.{resolve_view_sentinels-zero}
use miharbor.Deploy.Sentinels.Document.{resolved_secret}
use miharbor.Deploy.Sentinels.Proxies.{
  proxies_of, value_in, proxy_at, proxy_value, item_at, last_named, new_proxy_kept,
}
use miharbor.Deploy.Sentinels.Keys.{pre_shared_key, restored, resolved_wireguard_key}
use miharbor.Deploy.Sentinels.Free.{is_view_sentinel, has_sentinel, resolve_view_sentinels-free}

umbrella : Unit {0}
unfolding run_pipeline resolve_view_sentinels get item_at last_named has_sentinel is_view_sentinel
    text_eq and_then logged answered handled
umbrella = tt

abbrev current_config : Config
current_config = record { content = text "mode: rule"; hash = text "cafe" }

-- A document with errors cannot be printed.
abbrev printed : List Text → Reply Text
printed [] = returns (text "{}")
printed (e ∷ errors) = throws (text "Document with errors cannot be stringified")

-- Every call returns, and the health check finds no proxy.
abbrev calm : Context
calm = record {
  parse = λ t. record { doc = map end; errors = [] };
  serialize = λ d. printed d.errors;
  unified_diff = λ a b. record { added = 0; removed = 0 };
  on_read = λ tr. returns current_config;
  on_mask = λ tr d. returns d;
  on_unmask = λ tr d. returns d;
  on_lint = λ tr d. returns [];
  on_create_snapshot = λ tr t by. returns (some (text "s1"));
  on_list_snapshots = λ tr. returns [];
  on_validate = λ tr t. returns (record { ok = true; errors = [] });
  has_verify_and_write = true;
  on_write = λ tr t h. returns tt;
  on_reload = λ tr. returns tt;
  on_healthcheck = none;
  on_rollback = some (λ tr t. returns (text "s2"));
  on_audit = λ tr a t d. returns tt;
  auto_rollback = true;
}

abbrev sick : Context
sick = record {
  parse = calm.parse;
  serialize = calm.serialize;
  unified_diff = calm.unified_diff;
  on_read = calm.on_read;
  on_mask = calm.on_mask;
  on_unmask = calm.on_unmask;
  on_lint = calm.on_lint;
  on_create_snapshot = calm.on_create_snapshot;
  on_list_snapshots = calm.on_list_snapshots;
  on_validate = calm.on_validate;
  has_verify_and_write = true;
  on_write = calm.on_write;
  on_reload = calm.on_reload;
  on_healthcheck = some (λ tr. throws (text "no answer"));
  on_rollback = calm.on_rollback;
  on_audit = calm.on_audit;
  auto_rollback = false;
}

abbrev trace_of : Context → Trace
trace_of c = (run_pipeline c (text "a: 1") by_user []).1

writes_checked_example : WritesChecked calm by_user (run_pipeline calm (text "a: 1") by_user []).1
writes_checked_example = writes_checked calm by_user (text "a: 1")

rollbacks_allowed_example :
    RollbacksAllowed sick by_user (run_pipeline sick (text "a: 1") by_user []).1
rollbacks_allowed_example = rollbacks_allowed sick by_user (text "a: 1")

abbrev calm_result : PipelineResult
calm_result = record {
  snapshot_id = text "s1";
  diff = record { added = 0; removed = 0 };
  warnings = [];
}

calm_run :
    run_pipeline calm (text "a: 1") by_user []
    ≡ (ok calm_result, (run_pipeline calm (text "a: 1") by_user []).1)
calm_run = unfold umbrella in refl

success-Applied_example :
    (current : Config) × (calm.on_read [] ≡ returns current)
    × Applied calm current (run_pipeline calm (text "a: 1") by_user []).1
success-Applied_example = success-Applied calm (text "a: 1") by_user calm_result _ calm_run

-- The configuration on disk has an error; every draft parses.
abbrev broken : Context
broken = record calm {
  parse = λ t. record {
    doc = map end;
    errors = if text_eq t current_config.content then text "bad indentation" ∷ [] else [];
  };
}

abbrev current_doc : Yaml
current_doc = map (pair (str (text "secret")) (str (text "hunter2")) end)

abbrev masked_pairs : Pairs
masked_pairs = pair (str (text "secret")) (str meta_secret_sentinel) end

resolved_secret_example :
    get (text "secret") (resolve_view_sentinels (map masked_pairs) current_doc).0
    ≡ some (
        str (
          if text_eq meta_secret_sentinel meta_secret_sentinel
          then text "hunter2"
          else meta_secret_sentinel))
resolved_secret_example =
    resolved_secret current_doc masked_pairs meta_secret_sentinel (text "hunter2")
      (unfold umbrella in refl) (unfold umbrella in refl)

abbrev plain_doc : Yaml
plain_doc = map (pair (str (text "secret")) (str (text "new")) end)

resolve_view_sentinels-zero_example : (resolve_view_sentinels plain_doc current_doc).0 ≡ plain_doc
resolve_view_sentinels-zero_example =
    resolve_view_sentinels-zero plain_doc current_doc (unfold umbrella in refl)

resolve_view_sentinels-free_example : resolve_view_sentinels plain_doc current_doc ≡ (plain_doc, 0)
resolve_view_sentinels-free_example =
    resolve_view_sentinels-free plain_doc current_doc (unfold umbrella in refl)

abbrev named_proxy : Text → Pairs → Yaml
named_proxy n ps = map (pair (str (text "name")) (str n) ps)

abbrev proxies_doc : Items → Yaml
proxies_doc xs = map (pair (str (text "proxies")) (seq xs) end)

-- Two proxies of one name, of which the later has both keys.
abbrev current_proxy : Yaml
current_proxy = named_proxy (text "wg") (
    pair (str (text "private-key")) (str (text "key"))
      (pair (str (text "pre-shared-key")) (str (text "psk")) end))

abbrev current_proxies : Yaml
current_proxies = proxies_doc (
    cons (named_proxy (text "wg") (pair (str (text "pre-shared-key")) (str (text "old")) end))
      (cons current_proxy nil))

abbrev masked_proxy : Yaml
masked_proxy =
    named_proxy (text "wg")
      (pair (str (text "pre-shared-key")) (str wireguard_pre_shared_key_sentinel) end)

abbrev new_proxy : Yaml
new_proxy =
    named_proxy (text "new")
      (pair (str (text "private-key")) (str wireguard_private_key_sentinel) end)

abbrev masked_proxies : Yaml
masked_proxies = proxies_doc (cons new_proxy (cons masked_proxy nil))

resolved_wireguard_key_example :
    proxy_value 1 (text "pre-shared-key") (resolve_view_sentinels masked_proxies current_proxies).0
    ≡ some (
        str (
          restored wireguard_pre_shared_key_sentinel
            (as_text (
              value_in
                (text "pre-shared-key")
                (last_named (text "wg") (proxies_of current_proxies))))
            wireguard_pre_shared_key_sentinel))
resolved_wireguard_key_example =
    resolved_wireguard_key masked_proxies current_proxies 1 masked_proxy b'w' (text "g")
      pre_shared_key wireguard_pre_shared_key_sentinel (unfold umbrella in refl)
      (unfold umbrella in refl) (unfold umbrella in refl)

-- What the instance above comes to: the key of the later current proxy.
current_key_found :
    restored wireguard_pre_shared_key_sentinel
      (as_text
        (value_in (text "pre-shared-key") (last_named (text "wg") (proxies_of current_proxies))))
      wireguard_pre_shared_key_sentinel
    ≡ text "psk"
current_key_found = unfold umbrella in refl

new_proxy_kept_example :
    proxy_at 0 (resolve_view_sentinels masked_proxies current_proxies).0 ≡ some new_proxy
new_proxy_kept_example =
    new_proxy_kept masked_proxies current_proxies 0 new_proxy b'n' (text "ew")
      (unfold umbrella in refl) (unfold umbrella in refl) (unfold umbrella in refl)

abbrev keep_one : RetentionConfig
keep_one = record { retention_count = 1; retention_days = 0 }

abbrev two_snapshots : List SnapshotMeta
two_snapshots =
    record { id = text "s2"; timestamp = text "b" }
    ∷ record { id = text "s1"; timestamp = text "a" }
    ∷ []

-- A stand-in for `Date.parse` that reads every time as the same.
abbrev long_ago : Text → Option ℕ
long_ago t = some 5

apply_retention-cut_example : apply_retention long_ago keep_one 100 two_snapshots ≡ record {
  keep = kept long_ago keep_one 100 two_snapshots 1;
  remove = removed long_ago keep_one 100 two_snapshots 1;
}
apply_retention-cut_example = apply_retention-cut long_ago keep_one 100 two_snapshots
