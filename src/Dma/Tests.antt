-- ===== src/Dma/Tests.antt =====
-- Runs of the stream driver's operations at concrete channels, driver/stream_dma/streamio-drv.c.
use streamio.Common.{
  ℕ, ◌+◌, ◌≤◌, ◌≡◌, refl, true, false, some, List, [], ◌∷◌, map, replicate, arith,
}
use streamio.Dma.{
  ChannelBuffer, ProxyBd, Channel, no_error, timeout, queued, Submit, accepted, irq, callback,
  timed_out, woken, dma_complete, dma_in_progress, Finish, xfer, start_transfer, wait_for_transfer,
  ioctl, interrupts, interrupt, irq_handler, sync_callback, begin_wait, end_wait, outcome,
  dec_if_positive, submit_transfer, run_command,
}
use streamio.Dma.Files.{Event, ioctls, interrupted_by, step, run}
use streamio.Dma.Tables.{handles_from}
use streamio.Dma.Inv.{IsValid}
use streamio.Dma.Credits.{balance, irqs, finished, run-Credits}
use streamio.Dma.Setup.{
  unset, live, Node, CdevAnswers, cdevice_init, add_class, add_device, device_create,
  ChannelAnswers, create_channel,
}
use streamio.Dma.Setup.Channels.{create_channel-IsValid}
use streamio.Dma.Runs.{Ready, run-Ready}

-- Buffers of 100 bytes, in DMA memory from 4096 on.
abbrev clear_buffer : ChannelBuffer
clear_buffer = record { buffer = []; status = no_error; length = 100 }

abbrev entry_at : ℕ → ProxyBd
entry_at h = record { done = 0; cookie = accepted 0; dma_handle = h; sg_address = 0; sg_length = 0 }

abbrev channel : Channel
channel = record {
  buffer_table = replicate 32 clear_buffer;
  bdtable = map entry_at (handles_from 32 0 4096);
  buffer_phys_addr = 4096;
  bdindex = 1;
  wait_transfer_count = 0;
  issued = [];
}

channel-IsValid : IsValid channel
channel-IsValid = record { buffers = refl; entries = refl }

abbrev goes : Submit
goes = record { prepared = true; cookie = accepted 7 }

-- The transfer of buffer 1 completes, and its interrupt comes, while the call sleeps.
abbrev completes : Finish
completes = record { meanwhile = callback 1 ∷ irq ∷ []; wait = woken; status = dma_complete }

abbrev late : Finish
late = record { meanwhile = []; wait = timed_out; status = dma_in_progress }

abbrev queued_channel : Channel
queued_channel = record channel {
  buffer_table = clear_buffer ∷ record clear_buffer { status = queued } ∷ replicate 30 clear_buffer;
  bdtable =
      entry_at 4096
      ∷ record (entry_at 136192) { cookie = accepted 7; sg_address = 136192; sg_length = 100 }
      ∷ map entry_at (handles_from 30 2 4096);
  issued = record { address = 136192; size = 100; entry = 1 } ∷ [];
}

start_transfer-channel : start_transfer goes channel ≡ some queued_channel
unfolding start_transfer submit_transfer
start_transfer-channel = refl

abbrev timed_out_channel : Channel
timed_out_channel = record queued_channel {
  buffer_table =
      clear_buffer ∷ record clear_buffer { status = timeout } ∷ replicate 30 clear_buffer;
}

wait_for_transfer-late : wait_for_transfer late queued_channel ≡ some timed_out_channel
unfolding wait_for_transfer begin_wait interrupts end_wait outcome
wait_for_transfer-late = refl

-- Two interrupts come in, and one wait takes one of them.
abbrev session : List Event
session = interrupted_by irq ∷ ioctls xfer 1 goes completes ∷ []

abbrev after_session : Channel
after_session = record queued_channel {
  buffer_table = replicate 32 clear_buffer;
  wait_transfer_count = 1;
}

run-session : run session channel ≡ some after_session
unfolding run step ioctl run_command start_transfer submit_transfer wait_for_transfer begin_wait
    interrupts interrupt irq_handler sync_callback end_wait outcome dec_if_positive
run-session = refl

run-Credits_example :
    (1 ≡ balance session 0) × (1 ≤ 0 + irqs session) × (0 + irqs session ≤ 1 + finished session)
unfolding outcome
run-Credits_example = run-Credits session channel run-session (omega arith)

channel-Ready : Ready channel
channel-Ready = record { valid = channel-IsValid; index = omega arith }

run-Ready_example : (c' : Channel) × (run session channel ≡ some c') × Ready c'
run-Ready_example =
    run-Ready session channel channel-Ready (tt, ((omega arith, (omega arith, tt)), tt))

abbrev all_well : CdevAnswers
all_well = record {
  region_rc = 0;
  cdev_rc = 0;
  class_created = true;
  parent_class_error = false;
  device_error = false;
}

abbrev first_node : Node
first_node = record { region = true; cdev = true; device = true; class = live }

cdevice_init-well : cdevice_init all_well unset ≡ some (record { node = first_node; rc = 0 })
unfolding cdevice_init add_class add_device device_create
cdevice_init-well = refl

abbrev granted : ChannelAnswers
granted = record {
  request_rc = 0;
  cdev = all_well;
  phys = 4096;
  table = some (replicate 32 clear_buffer);
}

create_channel-IsValid_example :
    (k : Channel) × (create_channel granted unset (replicate 32 (entry_at 0))
      ≡ some (record { node = some first_node; channel = some k; rc = 0 }))
    × IsValid k
create_channel-IsValid_example =
    create_channel-IsValid granted unset (replicate 32 (entry_at 0)) (replicate 32 clear_buffer)
      first_node refl refl refl cdevice_init-well refl
