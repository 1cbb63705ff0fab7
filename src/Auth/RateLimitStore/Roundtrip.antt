-- ===== src/Auth/RateLimitStore/Roundtrip.antt =====
-- What a store finds on disk after it was written by an earlier one.
use miharbor.Base.{ℕ, ◌≡◌, refl, true, Option, none, some, List, [], ◌∷◌, if◌then◌else◌, arith}
use miharbor.Base.Text.{Text, text_eq, text_eq_iff}
use miharbor.Base.Dict.{lookup, lookup-insert, Unique}
use miharbor.Base.Json.{Json, fields, from_fields, JsonCodec}
use miharbor.Auth.Entry.{Entry, Entries}
use miharbor.Auth.RateLimitStore.{
  PruneBefore, should_prune, coerce_entry, load_entry, load_entries, entry_json, entries_json, Disk,
  FileStore, load, flush, payload, load_parsed,
}

-- The entry that a load at `t` finds where one saved it, or else `rest`.
abbrev pub surviving : PruneBefore → ℕ → Option Entry → Option Entry → Option Entry
surviving prune t none rest = rest
surviving prune t (some e) rest = if should_prune prune t e then rest else some e

coerce_entry-entry_json : (e : Entry) → coerce_entry (entry_json e) ≡ some e
unfolding coerce_entry entry_json lookup text_eq
coerce_entry-entry_json e = refl

lookup-load_entry :
    (prune : PruneBefore) (t : ℕ) (j ip : Text) (e : Entry) (out : Entries)
    → lookup ip (load_entry prune t j (some e) out)
      ≡ (if text_eq j ip then surviving prune t (some e) (lookup ip out) else lookup ip out)
unfolding load_entry
lookup-load_entry prune t j ip e out = ground (arith, lookup-insert j ip e out)

lookup-load_entries :
    (prune : PruneBefore) (t : ℕ) (ip : Text) (m out : Entries)
    → Unique m
    → lookup ip (load_entries prune t (entries_json m) out)
      ≡ surviving prune t (lookup ip m) (lookup ip out)
unfolding load_entries entries_json lookup
lookup-load_entries prune t ip [] out u = refl
lookup-load_entries prune t ip ((j, e) ∷ m) out u = ground (
  arith,
  coerce_entry-entry_json e,
  lookup-load_entries prune t ip m (load_entry prune t j (some e) out) u.1,
  lookup-load_entry prune t j ip e out,
  text_eq_iff j ip,
  u.0,
)

load_parsed-payload :
    (prune : PruneBefore) (t saved_at : ℕ) (m : Entries)
    → load_parsed prune t (some (payload saved_at m))
      ≡ load_entries prune t (fields (from_fields (entries_json m))) []
unfolding load_parsed payload lookup text_eq
load_parsed-payload prune t saved_at m = refl

fields-from_fields : (m : List (Text × Json)) → fields (from_fields m) ≡ m
fields-from_fields [] = refl
fields-from_fields ((k, v) ∷ m) = rw (fields-from_fields m)

-- After a flush that was written, a load finds for every IP the entry of the flushed map, unless
-- that entry is one which the load prunes; of an IP that the map lacks it finds nothing.
pub load-flush :
    (c : JsonCodec) (prune : PruneBefore) (saved_at t : ℕ) (s : FileStore) (disk : Disk c.Raw)
    (m : Entries) (ip : Text)
    → s.pending ≡ some m
    → Unique m
    → lookup ip (load c prune t (flush c true saved_at (s, disk)).1)
      ≡ surviving prune t (lookup ip m) none
unfolding load flush
load-flush c prune saved_at t s disk m ip p u =
    rw
      (
        p,
        c.parse-stringify (payload saved_at m),
        load_parsed-payload prune t saved_at m,
        fields-from_fields (entries_json m),
        lookup-load_entries prune t ip m [] u,
      )
      (unfold lookup in refl)
