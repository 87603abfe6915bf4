-- ===== src/Regs/Tests.antt =====
-- Runs of the register driver's operations, driver/axi_ctrl/streamio-ctrl-drv.c.
use streamio.Common.{
  ℕ, ◌+◌, ◌*◌, ◌/◌, ◌<◌, ◌≡◌, refl, true, some, List, [], ◌∷◌, replicate, get_elem?, take, leb,
  if◌then◌else◌, arith,
}
use streamio.Regs.{tc_cdev_read, words}
use streamio.Regs.Access.{covered, tc_cdev_read_lem}
use streamio.Regs.Setup.{Answers, transmit_control_probe, Probed, transmit_control_probe-Probed}

abbrev regs : List ℕ
regs = replicate 512 7

-- 16 bytes from byte 8 on: registers 2 and 3, behind two words of zeros.
tc_cdev_read_lem_example :
    (buffer : List ℕ) × (tc_cdev_read true true 16 regs (record { f_pos = 8; addr = 0 })
      ≡ some (record { f_pos = 8 + covered 16 * 4; addr = 0 }, words (take (covered 16) buffer)))
    × ((j : ℕ)
        → j < covered 16
        → get_elem? buffer j ≡ (if leb (8 / 4) j then get_elem? regs j else some 0))
tc_cdev_read_lem_example = tc_cdev_read_lem 16 8 regs refl (omega arith)

abbrev data_words : List ℕ
data_words = 1 ∷ 2 ∷ 3 ∷ 4 ∷ []

abbrev no_class : Answers
no_class = record {
  ioremap_rc = 0;
  region_rc = 0;
  cdev_allocated = true;
  cdev_rc = 0;
  class_rc = 12;
  device_rc = 0;
}

transmit_control_probe-Probed_example : Probed no_class (transmit_control_probe no_class)
transmit_control_probe-Probed_example = transmit_control_probe-Probed no_class
