-- ===== src/Remote/Deliver/Samples.antt =====
-- Answers of an engine that takes a transfer and completes in time, for the tests.
use streamio.Common.{refl, arith}
use streamio.Local.Samples.{completes}
use streamio.Remote.Deliver.Calls.{Willing}

pub completes-Willing : Willing completes
completes-Willing = record { taken = refl; known = tt; prompt = λ e. ground arith }
