-- ===== src/One/EventStates.antt =====
-- A runtime in which an event stands under a GUID (`objects_` in include/one/runtime.h).
use ocr_vx.Prelude.{ℕ, some}
use ocr_vx.One.Types.{Runtime, Event, event_object}
use ocr_vx.One.Monad.{update}

-- The state in which the event `g` is `e`.
abbrev pub with_event : Runtime → ℕ → Event → Runtime
with_event s g e = record s { objects = update s.objects g (some (event_object e)) }
