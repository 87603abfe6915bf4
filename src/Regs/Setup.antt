-- ===== src/Regs/Setup.antt =====
-- driver/axi_ctrl/streamio-ctrl-drv.c: `cdevice_init` and `transmit_control_probe`, `cdevice_exit` and
-- `transmit_control_remove`.
-- What the kernel answers is an argument; an error code is the absolute value of the C code's.
use streamio.Common.{
  ℕ, ◌≡◌, ◌≢◌, true, false, Bool, Option, none, some, arith, ◌==◌, if◌then◌else◌, ◌>>=◌, Bool-cases,
  ==→eq, ==→ne, inl, inr,
}

pub record Held : Type 0 where
  pub region : Bool
  pub cdev : Bool
  pub class : Bool
  pub device : Bool

abbrev pub nothing : Held
nothing = record { region = false; cdev = false; class = false; device = false }

abbrev pub everything : Held
everything = record { region = true; cdev = true; class = true; device = true }

-- Each code is 0 where the call succeeds; those of the last two are from their error pointers.
-- `cdev_allocated` is whether `cdev_alloc` gives memory.
pub record Answers : Type 0 where
  pub ioremap_rc : ℕ
  pub region_rc : ℕ
  pub cdev_allocated : Bool
  pub cdev_rc : ℕ
  pub class_rc : ℕ
  pub device_rc : ℕ

pub record Result : Type 0 where
  pub held : Held
  pub rc : ℕ

abbrev enavail : ℕ
enavail = 119

-- r_class: the cdev and the region go, and what else was made before stays.
abbrev r_class : Held → Held
r_class h = record h { region = false; cdev = false }

-- r_device: the class goes first.
abbrev r_device : Held → Held
r_device h = r_class (record h { class = false })

-- `cdev_init` is called with what `cdev_alloc` gave, untested: `none` is its write through NULL.
unfoldable pub cdevice_init : Answers → Option Result
cdevice_init a =
    let with_region = record nothing { region = true } in
    let with_cdev = record with_region { cdev = true } in
    let with_class = record with_cdev { class = true } in
    let added : Result =
      if a.cdev_rc == 0
      then if a.class_rc == 0
        then if a.device_rc == 0
          then record { held = record with_class { device = true }; rc = 0 }
          else record { held = r_device with_class; rc = a.device_rc }
        else record { held = r_class with_cdev; rc = a.class_rc }
      else record { held = r_class with_region; rc = a.cdev_rc } in
    if a.region_rc == 0
    then if a.cdev_allocated then some added else none
    else some (record { held = nothing; rc = enavail })

unfoldable pub transmit_control_probe : Answers → Option Result
transmit_control_probe a =
    if a.ioremap_rc == 0
    then cdevice_init a
    else some (record { held = nothing; rc = a.ioremap_rc })

-- The ways in which the probe ends.
pub data Probed (a : Answers) : Option Result → Type 0 where
  complete :
      {r : Option Result}
      → r ≡ some (record { held = everything; rc = 0 })
      → a.ioremap_rc ≡ 0
      → a.region_rc ≡ 0
      → a.cdev_allocated ≡ true
      → a.cdev_rc ≡ 0
      → a.class_rc ≡ 0
      → a.device_rc ≡ 0
      → Probed a r
  undone :
      (rc : ℕ) {r : Option Result}
      → r ≡ some (record { held = nothing; rc = rc })
      → rc ≢ 0
      → Probed a r
  null_cdev :
      {r : Option Result}
      → r ≡ none
      → a.ioremap_rc ≡ 0
      → a.region_rc ≡ 0
      → a.cdev_allocated ≡ false
      → Probed a r

-- Behind `cdev_alloc` a failing call is undone as far as its label goes.
added-Probed :
    (a : Answers)
    → a.ioremap_rc ≡ 0
    → a.region_rc ≡ 0
    → a.cdev_allocated ≡ true
    → Probed a (transmit_control_probe a)
unfolding transmit_control_probe cdevice_init
added-Probed a m r c = elim (Bool-cases (a.cdev_rc == 0)) [
  | inr n ↦ undone a.cdev_rc (ground (arith, m, r, c, n)) (==→ne a.cdev_rc 0 n)
  | inl y1 ↦ elim (Bool-cases (a.class_rc == 0)) [
    | inr n ↦ undone a.class_rc (ground (arith, m, r, c, n)) (==→ne a.class_rc 0 n)
    | inl y2 ↦ elim (Bool-cases (a.device_rc == 0)) [
      | inr n ↦ undone a.device_rc (ground (arith, m, r, c, n)) (==→ne a.device_rc 0 n)
      | inl y3 ↦
          complete (ground (arith, m, r, c)) m r c (==→eq a.cdev_rc 0 y1) (==→eq a.class_rc 0 y2)
            (==→eq a.device_rc 0 y3)
    ]
  ]
]

-- On every answer of the kernel the probe of the register driver does one of three things: it returns
-- 0 with the region, the cdev, the class and the device node all there, when every call succeeded;
-- it returns an error, and none of them is left; or it writes through the NULL of a `cdev_alloc`
-- that had no memory.
pub transmit_control_probe-Probed : (a : Answers) → Probed a (transmit_control_probe a)
unfolding transmit_control_probe cdevice_init
transmit_control_probe-Probed a = elim (Bool-cases (a.ioremap_rc == 0)) [
  | inr n ↦ undone a.ioremap_rc (ground (arith, n)) (==→ne a.ioremap_rc 0 n)
  | inl y1 ↦ elim (Bool-cases (a.region_rc == 0)) [
    | inr n ↦ undone enavail (ground (arith, y1, n)) (omega arith)
    | inl y2 ↦ elim (Bool-cases a.cdev_allocated) [
      | inr n ↦
          null_cdev (ground (arith, y1, y2, n)) (==→eq a.ioremap_rc 0 y1) (==→eq a.region_rc 0 y2) n
      | inl y3 ↦ added-Probed a (==→eq a.ioremap_rc 0 y1) (==→eq a.region_rc 0 y2) y3
    ]
  ]
]

-- class_unregister and class_destroy: either takes the class down, and frees it; `none` is the use of
-- a class that has been freed.
end_class : Held → Option Held
end_class h = if h.class then some (record h { class = false }) else none

cdevice_exit : Held → Option Held
unfolding end_class
cdevice_exit h = do
  unregistered ← end_class (record h { device = false })
  destroyed ← end_class unregistered
  some (record destroyed { cdev = false; region = false })

pub transmit_control_remove : Held → Option Held
transmit_control_remove h = cdevice_exit h
