-- ===== src/Dma/Setup.antt =====
-- driver/stream_dma/streamio-drv.c: `cdevice_init` and `create_channel`. What the kernel answers is an
-- argument; an error code is the absolute value of the C code's. `none` is the use of a freed class.
pub mod Channels
use streamio.Common.{
  ℕ, zero, suc, ◌+◌, ◌*◌, Bool, true, false, not, Option, none, some, List, [], get_elem?, set,
  ◌==◌, if◌then◌else◌, ◌>>=◌,
}
use streamio.Dma.{ChannelBuffer, ProxyBd, Channel, buffer_count, sizeof_channel_buffer}

-- The static `local_class_p`: null, a class, the error pointer of a failed `class_create`, or a
-- pointer to a class that was destroyed.
pub data ClassSlot : Type 0 where
  unset live error_pointer dangling : ClassSlot

-- What of a character device is there, and the class.
pub record Node : Type 0 where
  pub region : Bool
  pub cdev : Bool
  pub device : Bool
  pub class : ClassSlot

pub record CdevAnswers : Type 0 where
  pub region_rc : ℕ
  pub cdev_rc : ℕ
  pub class_created : Bool
  pub parent_class_error : Bool
  pub device_error : Bool

pub record CdevResult : Type 0 where
  pub node : Node
  pub rc : ℕ

-- The labels of `cdevice_init`, each of which goes on with the next.
unfoldable pub init_error1 : Node → Node
init_error1 n = record n { region = false }

unfoldable pub init_error2 : Node → Node
unfolding init_error1
init_error2 n = init_error1 (record n { cdev = false })

-- class_destroy does nothing with a null or an error pointer.
unfoldable pub init_error3 : Node → Option Node
unfolding init_error2
init_error3 n = elim n.class [
  | live ↦ some (init_error2 (record n { class = dangling }))
  | dangling ↦ none
  | unset ↦ some (init_error2 n)
  | error_pointer ↦ some (init_error2 n)
]

-- Whether device_create makes the device node: not with a null or an error pointer for the class.
unfoldable pub device_create : CdevAnswers → ClassSlot → Option Bool
device_create a live = some (not a.device_error)
device_create a dangling = none
device_create a unset = some false
device_create a error_pointer = some false

-- From `device_create` on. At `init_error3` `rc` still is the 0 of `cdev_add`.
unfoldable pub add_device : CdevAnswers → Node → Option CdevResult
unfolding device_create init_error3
add_device a n = do
  made ← device_create a n.class
  undone ← if made then some n else init_error3 n
  some (
      if made
      then record { node = record n { device = true }; rc = 0 }
      else record { node = undone; rc = 0 })

-- The class, made once. The test reads the parent device's class, not the new one.
unfoldable pub add_class : CdevAnswers → Node → Option CdevResult
unfolding add_device init_error2
add_class a n = elim n.class [
  | unset ↦
      let n' : Node = record n { class = if a.class_created then live else error_pointer } in
      let added = add_device a n' in
      if a.parent_class_error then some (record { node = init_error2 n'; rc = 1 }) else added
  | live ↦ add_device a n
  | error_pointer ↦ add_device a n
  | dangling ↦ add_device a n
]

unfoldable pub cdevice_init : CdevAnswers → ClassSlot → Option CdevResult
unfolding add_class init_error1
cdevice_init a cls =
    let n : Node = record { region = false; cdev = false; device = false; class = cls } in
    let n1 = record n { region = true } in
    let added = add_class a (record n1 { cdev = true }) in
    if a.region_rc == 0
    then if a.cdev_rc == 0 then added else some (record { node = init_error1 n1; rc = a.cdev_rc })
    else some (record { node = n; rc = a.region_rc })

-- for (bd = bd; rounds left; bd++): the address of each buffer, and its completion.
unfoldable pub init_entries : ℕ → ℕ → ℕ → List ProxyBd → Option (List ProxyBd)
init_entries zero bd phys ds = some ds
init_entries (suc n) bd phys ds = do
  d ← get_elem? ds bd
  let handle = phys + sizeof_channel_buffer * bd
  init_entries n (bd + 1) phys (set ds bd (record d { dma_handle = handle; done = 0 }))

pub record ChannelAnswers : Type 0 where
  pub request_rc : ℕ
  pub cdev : CdevAnswers
  pub phys : ℕ
  pub table : Option (List ChannelBuffer)

-- `node` is `none` where the character device was not begun.
pub record Created : Type 0 where
  pub node : Option Node
  pub channel : Option Channel
  pub rc : ℕ

unfoldable pub created : ℕ → List ChannelBuffer → List ProxyBd → Channel
created phys bs ds = record {
  buffer_table = bs;
  bdtable = ds;
  buffer_phys_addr = phys;
  bdindex = 0;
  wait_transfer_count = 0;
  issued = [];
}

-- `dmam_alloc_coherent` may give no table. The loop runs before that is tested, on the entries
-- alone.
unfoldable pub with_table : ChannelAnswers → Node → List ProxyBd → Created
unfolding created
with_table a n ds = elim a.table [
  | none ↦ record { node = some n; channel = none; rc = 1 }
  | some bs ↦ record { node = some n; channel = some (created a.phys bs ds); rc = 0 }
]

-- `entries` is the uninitialised `bdtable` of the new channel.
unfoldable pub create_channel : ChannelAnswers → ClassSlot → List ProxyBd → Option Created
unfolding with_table
create_channel a cls entries =
    let rest : CdevResult → Option Created = λ r.
      let filled = init_entries buffer_count 0 a.phys entries in
      (if r.rc == 0
        then (filled >>= λ ds. some (with_table a r.node ds))
        else some (record { node = some r.node; channel = none; rc = r.rc })) in
    let begun = cdevice_init a.cdev cls >>= rest in
    if a.request_rc == 0
    then begun
    else some (record { node = none; channel = none; rc = a.request_rc })
