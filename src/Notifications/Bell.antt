-- ===== src/Notifications/Bell.antt =====
-- The bell of Frontend/hawkeye-web/src/components/app/app-topbar.tsx.
use project_hawkeye.Base.{ℕ, ◌-◌, ◌/◌, String, Option, none, if◌then◌else◌, ltb}
use project_hawkeye.Base.Strings.{truthy}
use project_hawkeye.Notifications.Store.{
  Notification, NotificationState, mark_read, use_notifications, unread_count,
}

-- `formatTime`: the time of a notification against the clock
pub data Ago : Type 0 where
  just_now : Ago
  minutes : ℕ → Ago
  hours : ℕ → Ago
  on_date : ℕ → Ago

unfoldable pub format_time : (now created_at : ℕ) → Ago
format_time now created_at =
    let diff = now - created_at in
    (if ltb diff 60000
      then just_now
      else if ltb diff 3600000
      then minutes (diff / 60000)
      else if ltb diff 86400000
      then hours (diff / 3600000)
      else on_date created_at)

pub data Badge : Type 0 where
  hidden : Badge
  count : ℕ → Badge
  many : Badge

-- The number on the bell
unfoldable pub badge : NotificationState → Badge
badge s =
    let n = unread_count (use_notifications s) in
    (if ltb 0 n then (if ltb 9 n then many else count n) else hidden)

-- `handleClick` of an item: the store, and where the page goes
unfoldable pub handle_click : Notification → NotificationState → NotificationState × Option String
handle_click n s = (mark_read n.id s, if truthy n.href then n.href else none)
