-- ===== src/Backend/Samples.antt =====
-- A mapped device of eight registers, for the tests of what sets registers.
use native.Mathlib.Decide.{dec_lt}
use streamio.Common.{ℕ, replicate, get_elem?-replicate, get_elem?_of_ge, arith}
use streamio.Local.Window.{Window}
use streamio.Backend.Local.{Mapped}

abbrev pub window : Window
window = record { size = 8; memory = replicate 8 1 }

pub window-Mapped : Mapped window
window-Mapped = record {
  reach = omega arith;
  words = λ i v e. elim (dec_lt i 8) [
    | yes lt ↦ ground (arith, get_elem?-replicate {A = ℕ} 8 i 1 lt)
    | no ge ↦ absurd (ground (arith, get_elem?_of_ge window.memory i (omega arith)))
  ];
}
