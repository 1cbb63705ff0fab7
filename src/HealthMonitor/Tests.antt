-- ===== src/HealthMonitor/Tests.antt =====
-- A monitor that is stopped while a poll is under way.
use miharbor.Base.{◌≡◌, refl, true, List, [], ◌∷◌}
use miharbor.Base.Text.{text}
use miharbor.HealthMonitor.{
  HealthMonitor, start_health_monitor, version, Call, ticks, answers, run, stop,
}
use miharbor.HealthMonitor.Silence.{stop_silences}

abbrev late_answer : List Call
late_answer = ticks ∷ answers (version (text "1.19")) (text "t1") ∷ []

abbrev one_listener : HealthMonitor
one_listener = record (start_health_monitor true) { listeners = 7 ∷ [] }

stop_silences_example : (run late_answer (stop one_listener)).sent ≡ one_listener.sent
stop_silences_example = stop_silences one_listener late_answer refl tt
