-- ===== src/HealthMonitor.antt =====
-- health-monitor.ts: who is told of the proxy's state, and what a new listener hears. A listener is
-- a number; one that throws has been called all the same. The timer starts polls, and a poll that
-- has asked for the version ends later, with the other calls in between. Listeners that call the
-- monitor back are left out.
pub mod Silence
mod Tests
use miharbor.Base.{
  ℕ, suc, zero, Bool, true, false, Option, none, some, List, [], ◌∷◌, ◌++◌, if◌then◌else◌, ◌==◌,
}
use miharbor.Base.Text.{Text}

pub data HealthEvent : Type 0 where
  mihomo_up mihomo_down : Text → Text → HealthEvent
  canonicalized : Text → Text → Text → Text → HealthEvent

-- `sent` is what the listeners have been called with, newest first; `in_flight` counts the polls
-- that wait for an answer.
pub record HealthMonitor : Type 0 where
  pub listeners : List ℕ
  pub last_status : Option HealthEvent
  pub stopped : Bool
  pub in_flight : ℕ
  pub sent : List (ℕ × HealthEvent)

unfoldable pub deliver : HealthEvent → List ℕ → List (ℕ × HealthEvent) → List (ℕ × HealthEvent)
deliver e [] sent = sent
deliver e (l ∷ ls) sent = deliver e ls ((l, e) ∷ sent)

abbrev pub status_after : HealthEvent → Option HealthEvent → Option HealthEvent
status_after (mihomo_up version ts) last = some (mihomo_up version ts)
status_after (mihomo_down reason ts) last = some (mihomo_down reason ts)
status_after (canonicalized old new snapshot ts) last = last

unfoldable pub broadcast : HealthEvent → HealthMonitor → HealthMonitor
unfolding deliver
broadcast e m = record m {
  last_status = status_after e m.last_status;
  sent = deliver e m.listeners m.sent;
}

-- `poll` up to its call of `getVersion`, and from the answer on.
unfoldable pub poll_begins : HealthMonitor → HealthMonitor
poll_begins m = if m.stopped then m else record m { in_flight = suc m.in_flight }

-- What `getVersion` gives: a version, or an exception's message.
pub data Answer : Type 0 where
  version reason : Text → Answer

abbrev answer_event : Answer → Text → HealthEvent
answer_event (version v) ts = mihomo_up v ts
answer_event (reason msg) ts = mihomo_down msg ts

abbrev poll_ends_at : ℕ → Answer → Text → HealthMonitor → HealthMonitor
poll_ends_at zero a ts m = m
poll_ends_at (suc n) a ts m = broadcast (answer_event a ts) (record m { in_flight = n })

unfoldable pub poll_ends : Answer → Text → HealthMonitor → HealthMonitor
unfolding broadcast
poll_ends a ts m = poll_ends_at m.in_flight a ts m

-- `listeners.delete(l)`
unfoldable pub without : ℕ → List ℕ → List ℕ
without l [] = []
without l (k ∷ ks) = if k == l then without l ks else k ∷ without l ks

-- `listeners.add(l)`: a member keeps its place.
unfoldable pub with_listener : ℕ → List ℕ → List ℕ
with_listener l [] = l ∷ []
with_listener l (k ∷ ks) = if k == l then k ∷ ks else k ∷ with_listener l ks

abbrev hello : ℕ → Option HealthEvent → List (ℕ × HealthEvent) → List (ℕ × HealthEvent)
hello l none sent = sent
hello l (some e) sent = (l, e) ∷ sent

unfoldable pub subscribe : ℕ → HealthMonitor → HealthMonitor
unfolding with_listener
subscribe l m = record m {
  listeners = with_listener l m.listeners;
  sent = hello l m.last_status m.sent;
}

unfoldable pub unsubscribe : ℕ → HealthMonitor → HealthMonitor
unfolding without
unsubscribe l m = record m { listeners = without l m.listeners }

unfoldable pub stop : HealthMonitor → HealthMonitor
stop m = if m.stopped then m else record m { stopped = true; listeners = [] }

-- The calls of the program and of the timer, and the answers to polls.
pub data Call : Type 0 where
  subscribing unsubscribing : ℕ → Call
  emitting : HealthEvent → Call
  ticks stopping : Call
  answers : Answer → Text → Call

unfoldable pub step : Call → HealthMonitor → HealthMonitor
unfolding subscribe unsubscribe broadcast poll_begins poll_ends stop
step (subscribing l) m = subscribe l m
step (unsubscribing l) m = unsubscribe l m
step (emitting e) m = broadcast e m
step ticks m = poll_begins m
step stopping m = stop m
step (answers a ts) m = poll_ends a ts m

unfoldable pub run : List Call → HealthMonitor → HealthMonitor
unfolding step
run [] m = m
run (c ∷ cs) m = run cs (step c m)

-- The monitor once started, with the first poll under way where it is to be immediate.
abbrev pub start_health_monitor : Bool → HealthMonitor
start_health_monitor emit_immediately = record {
  listeners = [];
  last_status = none;
  stopped = false;
  in_flight = if emit_immediately then 1 else 0;
  sent = [];
}
