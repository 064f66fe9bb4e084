-- ===== src/Backend/Waits/Live.antt =====
-- The wait of a thread of the program for the front end comes to its end.
use mathlib.Core.Option
use vecoda.Base.{Option}
use vecoda.Backend.{Backend}
