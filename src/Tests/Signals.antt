-- ===== src/Tests/Signals.antt =====
-- Signals at a concrete zone file.
use resolvit.Prelude.{◌≡◌, refl, false, none, some, [], ◌∷◌}
use resolvit.Go.Text.{Text, codes}
use resolvit.Process.{hangup, terminate, State, running, exited, Files, on_signal, run_signals}

abbrev disk : Files
disk path = some (record { lines = codes "host.lan A 10.0.0.1" ∷ []; scan_fails = false })

abbrev no_disk : Files
no_disk path = none

abbrev fresh : State
fresh = record { records = []; cache = [] }

abbrev path : Text
path = codes "zone.txt"

signals_run : run_signals path (running fresh) ((hangup, disk) ∷ (terminate, disk) ∷ []) ≡ exited 0
unfolding run_signals on_signal
signals_run = refl
