-- ===== src/One/Cascade.antt =====
-- How deep satisfactions nest: `event::satisfy` and `runtime::satisfy_event`, whose calls of each
-- other `fuel` bounds in the model.
pub mod Logic
pub mod Defs
pub mod Satisfy
use ocr_vx.Prelude.{ℕ, ◌<◌}
use ocr_vx.One.Types.{Runtime}
use ocr_vx.One.Node.{event_satisfy, satisfy_event}
use ocr_vx.One.Cascade.Logic.{Any, Halted}
use ocr_vx.One.Cascade.Defs.{Ranked}
use ocr_vx.One.Cascade.Satisfy.{event_satisfy-Halts, satisfy_event-Halts}

-- If every edge of an event leads to a node of lower rank, and no lid stands for a GUID of higher
-- rank, then satisfying an event with more fuel than its rank does not run out of fuel; where it
-- returns, the edges still lead to lower ranks.
pub event_satisfy-Halted :
    (rank : ℕ → ℕ) (fuel g arg slot : ℕ) (s : Runtime)
    → rank g < fuel
    → Ranked rank s
    → Halted (Ranked rank) Any (event_satisfy fuel g arg slot s)
event_satisfy-Halted rank fuel g arg slot s h p = (event_satisfy-Halts fuel g arg slot h).halts s p

-- The same for the call of the API, whose argument may be a lid: with more fuel than the rank of
-- the event's GUID, `satisfy_event` does not run out of fuel if every edge leads to a node of lower
-- rank and no lid stands for a GUID of higher rank.
pub satisfy_event-Halted :
    (rank : ℕ → ℕ) (fuel g arg slot : ℕ) (s : Runtime)
    → rank g < fuel
    → Ranked rank s
    → Halted (Ranked rank) Any (satisfy_event (event_satisfy fuel) g arg slot s)
satisfy_event-Halted rank fuel g arg slot s h p =
    (satisfy_event-Halts (event_satisfy-Halts fuel) g arg slot h).halts s p
