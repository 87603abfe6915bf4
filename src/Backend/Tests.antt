-- ===== src/Backend/Tests.antt =====
-- The set-up of a program over both backends at a concrete window.
use streamio.Common.{List, [], ◌∷◌, arith}
use streamio.Remote.{closed}
use streamio.Backend.Local.{mapped_local}
use streamio.Backend.Net.{Settles, mapped_net, write_all_read_back}
use streamio.Backend.Samples.{window, window-Mapped}
use streamio.Backend.Writes.{Setting}

-- The reset is taken, the size of a packet set, and the reset released.
abbrev settings : List Setting
settings = (5, 3) ∷ (6, 2048) ∷ (5, 0) ∷ []

write_all_read_back_example :
    Settles mapped_local settings window × Settles (mapped_net 7 closed) settings window
write_all_read_back_example = write_all_read_back 7 closed settings window window-Mapped (
  (omega arith, omega arith, omega arith),
  ((omega arith, omega arith, omega arith), ((omega arith, omega arith, omega arith), tt)),
)
