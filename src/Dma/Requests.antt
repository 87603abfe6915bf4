-- ===== src/Dma/Requests.antt =====
-- What a start hands to the DMA engine.
use mathlib.Core.Path.{◌∙◌}
use mathlib.Core.Option.{some-injective}
use streamio.Common.{
  ℕ, ◌+◌, ◌*◌, ◌<◌, ◌≡◌, sym, ap, true, false, Bool, some, List, [], ◌∷◌, ◌++◌, append-nil,
  get_elem?, arith, >>=-eq-some, lt_of_get_elem?, get_elem?-set_self, get_elem?-set_ne,
  get_elem?-map,
}
use streamio.Dma.{
  ChannelBuffer, ProxyBd, Channel, Transfer, queued, Submit, accepted, refused, start_transfer,
  submit_transfer, buffer_count, sizeof_channel_buffer,
}
use streamio.Dma.Tables.{get_elem?-handles_from}
use streamio.Dma.Inv.{IsValid}
use streamio.Dma.Status.{Updates}

-- Whether the engine takes the transfer.
abbrev pub takes : Submit → Bool
takes a = elim a.cookie [ accepted n ↦ a.prepared | refused n ↦ false ]

entry_address :
    (c : Channel) (i : ℕ) {d : ProxyBd}
    → IsValid c
    → i < buffer_count
    → get_elem? c.bdtable i ≡ some d
    → d.dma_handle ≡ c.buffer_phys_addr + sizeof_channel_buffer * i
entry_address c i {d} v h e =
    let p : d.dma_handle ≡ c.buffer_phys_addr + sizeof_channel_buffer * (0 + i) =
      some-injective _ _ (
        sym (get_elem?-map (λ (x : ProxyBd). x.dma_handle) c.bdtable i e)
        ∙ ap (λ t. get_elem? t i) v.entries
        ∙ get_elem?-handles_from buffer_count 0 c.buffer_phys_addr i h) in
    omega (arith, p)

module _ (c : Channel) (i : ℕ) (b : ChannelBuffer) where
  -- The transfer of buffer `i` of the channel, and what a start makes of the queue and the buffer.
  abbrev pub request : Transfer
  request = record {
    address = c.buffer_phys_addr + sizeof_channel_buffer * i;
    size = b.length;
    entry = i;
  }

  abbrev pub requests : Bool → List Transfer
  requests true = request ∷ []
  requests false = []

  abbrev pub started : Bool → ChannelBuffer
  started true = record b { status = queued }
  started false = b

-- A start appends one transfer to the engine's queue, the physical range of the selected buffer with
-- the length in the buffer, and marks that buffer QUEUED, if the engine prepares a descriptor and
-- accepts it. Otherwise the queue and every status stay. No other buffer changes.
pub start_transfer-requests :
    (a : Submit) (c : Channel) {c' : Channel} (b : ChannelBuffer)
    → IsValid c
    → c.bdindex < buffer_count
    → get_elem? c.buffer_table c.bdindex ≡ some b
    → start_transfer a c ≡ some c'
    → (c'.issued ≡ c.issued ++ requests c c.bdindex b (takes a))
      × Updates c c' c.bdindex (started c c.bdindex b (takes a))
unfolding start_transfer submit_transfer
start_transfer-requests a c {c'} b v lt h e =
    let (b0, eb, r1) = >>=-eq-some (get_elem? c.buffer_table c.bdindex) _ e in
    let (d, ed, r2) = >>=-eq-some (get_elem? c.bdtable c.bdindex) _ r1 in
    (
      ground (arith, append-nil c.issued, entry_address c c.bdindex v lt ed, r2, eb, h),
      record {
        here = ground (
          arith,
          r2,
          eb,
          get_elem?-set_self c.buffer_table c.bdindex (record b { status = queued }),
          lt_of_get_elem? c.buffer_table c.bdindex h,
        );
        others = λ j n. ground (
          arith,
          r2,
          eb,
          get_elem?-set_ne c.buffer_table c.bdindex j (record b { status = queued }),
        );
      },
    )
