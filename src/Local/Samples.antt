-- ===== src/Local/Samples.antt =====
-- A device for the tests of the local backend and of what stands on it.
use streamio.Common.{ℕ, refl, true, [], ◌∷◌, ◌++◌, map, replicate, arith}
use streamio.Dma.{
  ChannelBuffer, ProxyBd, Channel, no_error, queued, accepted, timed_out, woken, dma_complete,
  dma_in_progress,
}
use streamio.Dma.Tables.{handles_from}
use streamio.Local.{LocalBuffer, Answers}
use streamio.Local.Ring.{RingIsValid}

abbrev pub clear_buffer : ChannelBuffer
clear_buffer = record { buffer = []; status = no_error; length = 0 }

abbrev pub queued_buffer : ChannelBuffer
queued_buffer = record clear_buffer { status = queued }

abbrev pub entry_at : ℕ → ProxyBd
entry_at h = record { done = 0; cookie = accepted 0; dma_handle = h; sg_address = 0; sg_length = 0 }

abbrev pub channel : Channel
channel = record {
  buffer_table = replicate 31 clear_buffer ++ (queued_buffer ∷ []);
  bdtable = map entry_at (handles_from 32 0 4096);
  buffer_phys_addr = 4096;
  bdindex = 0;
  wait_transfer_count = 0;
  issued = [];
}

-- The ring at its last buffer, which the engine has.
abbrev pub device : LocalBuffer
device = record { buffer_count = 32; current_buffer_id = 31; channel = channel }

pub device-RingIsValid : RingIsValid device
device-RingIsValid = record {
  channel = record { buffers = refl; entries = refl };
  count = refl;
  current = omega arith;
}

abbrev pub completes : Answers
completes = record {
  submit = record { prepared = true; cookie = accepted 1 };
  finish = record { meanwhile = []; wait = woken; status = dma_complete };
}

abbrev pub late : Answers
late = record {
  submit = record { prepared = true; cookie = accepted 1 };
  finish = record { meanwhile = []; wait = timed_out; status = dma_in_progress };
}
