-- ===== src/Dummy/Threads/Race.antt =====
-- A reader does not take the mutex.
use cachercise.Hoard.{Hoard}
