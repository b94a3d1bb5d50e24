-- ===== src/Scheduler/System.antt =====
-- realtime/realtime_scheduler.py beside its users: the scheduler thread steps, requests end, and
-- the collector's main thread takes one result at a time and acknowledges it (collector.py, `run`).
use bkk_collector.Base.{ℕ, String, Option, none, some, List, ◌≡◌}
use bkk_collector.Scheduler.{
  Outcome, ScheduledResult, Scheduler, Reading, new_scheduler, step, get, acknowledge, finish_feed,
}

pub record System (V : Type 0) : Type 0 where
  pub scheduler : Scheduler V
  -- the item between `get` and `acknowledge`
  pub held : Option (ScheduledResult V)

pub data Move {V : Type 0} (a b : System V) : Type 0 where
  ticks :
      (r : Reading) (s : Scheduler V)
      → step r a.scheduler ≡ some s
      → b ≡ record a { scheduler = s }
      → Move a b
  finishes :
      (feed : String) (outcome : Outcome V)
      → b ≡ record a {
        scheduler = record a.scheduler {
          schedules = finish_feed feed outcome a.scheduler.schedules;
        };
      }
      → Move a b
  takes :
      (item : ScheduledResult V)
      → a.held ≡ none
      → (get a.scheduler).0 ≡ some item
      → b ≡ record { scheduler = (get a.scheduler).1; held = some item }
      → Move a b
  acknowledges :
      (item : ScheduledResult V)
      → a.held ≡ some item
      → b ≡ record { scheduler = acknowledge item a.scheduler; held = none }
      → Move a b

pub data Reach {V : Type 0} (a : System V) : System V → Type 0 where
  here : Reach a a
  next : {b c : System V} → Reach a b → Move b c → Reach a c

module _ {V : Type 0} where
  unfoldable pub start_system : List (String × ℕ) → ℕ → System V
  unfolding new_scheduler
  start_system intervals start = record { scheduler = new_scheduler intervals start; held = none }

  pub Reach-induction :
      (P : System V → Type 0)
      → ((a b : System V) → Move a b → P a → P b)
      → {a b : System V} → P a
      → Reach a b
      → P b
  Reach-induction P keep h here = h
  Reach-induction P keep h (next {b} {c} r m) = keep b c m (Reach-induction P keep h r)
