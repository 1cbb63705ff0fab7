-- ===== src/HealthMonitor/Silence.antt =====
-- A monitor of health-monitor.ts after its stop.
use miharbor.Base.{ℕ, suc, zero, ◌≡◌, refl, ◌∙◌, false, List, [], ◌∷◌, Bool-cases, inl, inr}
use miharbor.HealthMonitor.{
  HealthMonitor, HealthEvent, Answer, answer_event, Call, subscribing, unsubscribing, emitting,
  ticks, stopping, answers, step, run, broadcast, deliver, poll_begins, poll_ends, poll_ends_at,
  stop, unsubscribe, without,
}

-- None of the calls subscribes.
abbrev pub NoSubscriber : List Call → Type 0
NoSubscriber [] = Unit {0}
NoSubscriber (subscribing l ∷ cs) = ⊥
NoSubscriber (unsubscribing l ∷ cs) = NoSubscriber cs
NoSubscriber (emitting e ∷ cs) = NoSubscriber cs
NoSubscriber (ticks ∷ cs) = NoSubscriber cs
NoSubscriber (stopping ∷ cs) = NoSubscriber cs
NoSubscriber (answers a ts ∷ cs) = NoSubscriber cs

-- A step of a monitor without listeners that leaves it without, and tells nobody.
abbrev Quiet : HealthMonitor → HealthMonitor → Type 0
Quiet m m' = (m'.listeners ≡ []) × (m'.sent ≡ m.sent)

broadcast-Quiet : (e : HealthEvent) (m : HealthMonitor) → m.listeners ≡ [] → Quiet m (broadcast e m)
unfolding broadcast deliver
broadcast-Quiet e m h = (h, rw h refl)

poll_ends_at-Quiet :
    (n : ℕ) (a : Answer) (ts : List ℕ) (m : HealthMonitor)
    → m.listeners ≡ []
    → Quiet m (poll_ends_at n a ts m)
poll_ends_at-Quiet zero a ts m h = (h, refl)
poll_ends_at-Quiet (suc n) a ts m h =
    broadcast-Quiet (answer_event a ts) (record m { in_flight = n }) h

poll_begins-Quiet : (m : HealthMonitor) → m.listeners ≡ [] → Quiet m (poll_begins m)
unfolding poll_begins
poll_begins-Quiet m h = elim (Bool-cases m.stopped) [
  | inl e ↦ rw e (h, refl)
  | inr e ↦ rw e (h, refl)
]

stop-Quiet : (m : HealthMonitor) → m.listeners ≡ [] → Quiet m (stop m)
unfolding stop
stop-Quiet m h = elim (Bool-cases m.stopped) [ inl e ↦ rw e (h, refl) | inr e ↦ rw e (refl, refl) ]

run-quiet :
    (cs : List Call) (m : HealthMonitor)
    → m.listeners ≡ []
    → NoSubscriber cs
    → (run cs m).sent ≡ m.sent
unfolding run step
run-quiet [] m h n = refl
run-quiet (subscribing l ∷ cs) m h n = absurd n
run-quiet (unsubscribing l ∷ cs) m h n =
    run-quiet cs (unsubscribe l m) (unfold unsubscribe without in rw h refl) n
    ∙ (unfold unsubscribe in refl)
run-quiet (emitting e ∷ cs) m h n =
    let q = broadcast-Quiet e m h in run-quiet cs (broadcast e m) q.0 n ∙ q.1
run-quiet (ticks ∷ cs) m h n =
    let q = poll_begins-Quiet m h in run-quiet cs (poll_begins m) q.0 n ∙ q.1
run-quiet (stopping ∷ cs) m h n = let q = stop-Quiet m h in run-quiet cs (stop m) q.0 n ∙ q.1
run-quiet (answers a ts ∷ cs) m h n =
    let q = poll_ends_at-Quiet m.in_flight a ts m h in
    run-quiet cs (poll_ends a ts m) (unfold poll_ends in q.0) n ∙ (unfold poll_ends in q.1)

-- Once a running monitor is stopped, whatever is called, ticks or is answered, also a poll that was
-- under way, and until somebody subscribes, no listener is called.
pub stop_silences :
    (m : HealthMonitor) (cs : List Call)
    → m.stopped ≡ false
    → NoSubscriber cs
    → (run cs (stop m)).sent ≡ m.sent
stop_silences m cs running n =
    run-quiet cs (stop m) (unfold stop in rw running refl) n ∙ (unfold stop in rw running refl)
