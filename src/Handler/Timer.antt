-- ===== src/Handler/Timer.antt =====
-- EventTimer of Cornus/include/lib/timer.hpp. A time is a number of ticks, and how a duration is printed
-- is the C++ library's: the parameter `count` of `dump`.
use cornus.Base.{ℕ, Bytes, List, [], ◌∷◌, ◌++◌, codes}

pub record TimeEvent : Type 0 where
  pub time : ℕ
  pub event : Bytes

pub record EventTimer : Type 0 where
  pub events : List TimeEvent

-- `record`, at the time that the clock shows
unfoldable pub record_at : EventTimer → ℕ → Bytes → EventTimer
record_at timer now event = record {
  events = timer.events ++ record { time = now; event = event } ∷ [];
}

-- The loop of `dump` from the event `e_s` on.
dump_from : (ℕ → ℕ → Bytes) → TimeEvent → List TimeEvent → Bytes
dump_from count e_s [] = []
dump_from count e_s (e_e ∷ events) =
    codes "{"
    ++ (e_s.event
        ++ (codes " to "
            ++ (e_e.event
                ++ (codes "="
                    ++ (count e_s.time e_e.time ++ (codes "}" ++ dump_from count e_e events))))))

dump_events : (ℕ → ℕ → Bytes) → List TimeEvent → Bytes
unfolding dump_from
dump_events count [] = []
dump_events count (e ∷ events) = dump_from count e events

unfoldable pub dump : (ℕ → ℕ → Bytes) → EventTimer → Bytes
unfolding dump_events
dump count timer = codes "EventSummary: {" ++ (dump_events count timer.events ++ codes "}")
