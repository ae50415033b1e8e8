-- ===== src/Calendar.antt =====
-- integrations/calendar/app/events.ts: the layout of a day's timed events in a week column.
pub mod Lanes
