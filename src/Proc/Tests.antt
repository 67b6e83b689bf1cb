-- ===== src/Proc/Tests.antt =====
-- Calls on a table of three processes.
use ele3021_spring.Common.{some, false, refl, ◌∷◌, []}
use ele3021_spring.Proc.{Proc, Ptable, blank, running, sleeping, administrator}
use ele3021_spring.Proc.Signal.Laws.{Kills, kill-Kills}

abbrev init : Proc
init = record blank { state = sleeping; pid = 1; chan = 77; sz = 4096 }

abbrev shell : Proc
shell = record blank { state = running; pid = 2; parent = some 0; sz = 8192; mode = administrator }

abbrev table : Ptable
table = record { locked = false; proc = init ∷ shell ∷ blank ∷ []; nextpid = 3 }

kill-Kills_example : Kills 1 table
kill-Kills_example = kill-Kills 1 table refl
