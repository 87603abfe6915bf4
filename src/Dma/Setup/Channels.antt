-- ===== src/Dma/Setup/Channels.antt =====
-- What `create_channel` of driver/stream_dma/streamio-drv.c makes of a channel.
use mathlib.Core.Path.{subst}
use streamio.Common.{
  ℕ, suc, ◌+◌, ◌*◌, ◌≡◌, refl, sym, ap, ◌∙◌, true, false, none, some, List, [], ◌∷◌, ◌++◌, map,
  append_assoc, length, length-append, get_elem?, set, arith, set-append, get_elem?-append,
}
use streamio.Dma.{ChannelBuffer, ProxyBd, Channel, buffer_count, sizeof_channel_buffer}
use streamio.Dma.Tables.{handles_from}
use streamio.Dma.Inv.{IsValid}
use streamio.Dma.Setup.{
  ClassSlot, live, dangling, Node, CdevAnswers, cdevice_init, init_entries, ChannelAnswers, created,
  with_table, create_channel,
}

abbrev ready : ProxyBd → ℕ → ProxyBd
ready d handle = record d { dma_handle = handle; done = 0 }

init_entries-suc :
    (n bd phys : ℕ) (ds : List ProxyBd) (d : ProxyBd)
    → get_elem? ds bd ≡ some d
    → init_entries (suc n) bd phys ds
      ≡ init_entries n (bd + 1) phys (set ds bd (ready d (phys + sizeof_channel_buffer * bd)))
unfolding init_entries
init_entries-suc n bd phys ds d e = rw e refl

module _ (pre suf : List ProxyBd) (d d' : ProxyBd) (bd : ℕ) (e : length pre ≡ bd) where
  get_at : get_elem? (pre ++ (d ∷ suf)) bd ≡ some d
  get_at = rw (← e) (get_elem?-append pre suf d)

  set_at : set (pre ++ (d ∷ suf)) bd d' ≡ (pre ++ (d' ∷ [])) ++ suf
  set_at = rw (← e) (set-append pre suf d d' ∙ sym (append_assoc pre (d' ∷ []) suf))

init_entries_lem :
    (pre suf : List ProxyBd) (phys bd : ℕ)
    → length pre ≡ bd
    → (ds : List ProxyBd) × (init_entries (length suf) bd phys (pre ++ suf) ≡ some (pre ++ ds))
      × (map (λ (d : ProxyBd). d.dma_handle) ds ≡ handles_from (length suf) bd phys)
init_entries_lem pre [] phys bd e = ([], unfold init_entries in refl, refl)
init_entries_lem pre (d ∷ suf) phys bd e =
    let d' : ProxyBd = ready d (phys + sizeof_channel_buffer * bd) in
    let (ds, run, same) =
      init_entries_lem (pre ++ (d' ∷ [])) suf phys (bd + 1)
        (omega (arith, length-append pre (d' ∷ []))) in
    (
      d' ∷ ds,
      init_entries-suc (length suf) bd phys (pre ++ (d ∷ suf)) d (get_at pre suf d d' bd e)
          ∙ ap (init_entries (length suf) (bd + 1) phys) (set_at pre suf d d' bd e)
          ∙ run
          ∙ ap some (append_assoc pre (d' ∷ []) ds),
      ap (◌∷◌ d'.dma_handle) same,
    )

-- When the channel is granted, the character device is set up with 0 and the table of 32 buffers allocated,
-- `create_channel` returns 0 with a valid channel: whatever its entries held, each has the bus address of
-- its buffer.
pub create_channel-IsValid :
    (a : ChannelAnswers) (cls : ClassSlot) (entries : List ProxyBd) (bs : List ChannelBuffer)
    (n : Node)
    → length entries ≡ buffer_count
    → length bs ≡ buffer_count
    → a.request_rc ≡ 0
    → cdevice_init a.cdev cls ≡ some (record { node = n; rc = 0 })
    → a.table ≡ some bs
    → (k : Channel) × (create_channel a cls entries
        ≡ some (record { node = some n; channel = some k; rc = 0 }))
      × IsValid k
unfolding create_channel with_table
create_channel-IsValid a cls entries bs n le lb rr ci tb =
    let (ds, run, same) = init_entries_lem [] entries a.phys 0 refl in
    let run' : init_entries buffer_count 0 a.phys entries ≡ some ds =
      subst (λ n. init_entries n 0 a.phys entries ≡ some ds) le run in
    let same' : map (λ (d : ProxyBd). d.dma_handle) ds ≡ handles_from buffer_count 0 a.phys =
      subst (λ n. map (λ (d : ProxyBd). d.dma_handle) ds ≡ handles_from n 0 a.phys) le same in
    (created a.phys bs ds, rw (ci, run', rr, tb) refl, record { buffers = lb; entries = same' })

-- Where only `device_create` fails, `cdevice_init` returns 0, the code of success, with nothing set up,
-- and has destroyed the class, which the next channel then uses.
cdevice_init-hidden_error :
    (a next : CdevAnswers) (cls : ClassSlot)
    → cls ≡ live
    → a.region_rc ≡ 0
    → a.cdev_rc ≡ 0
    → a.device_error ≡ true
    → next.region_rc ≡ 0
    → next.cdev_rc ≡ 0
    → (n : Node) × (cdevice_init a cls ≡ some (record { node = n; rc = 0 }))
      × (n.device ≡ false)
      × (n.cdev ≡ false)
      × (n.region ≡ false)
      × (cdevice_init next n.class ≡ none)
unfolding cdevice_init
cdevice_init-hidden_error a next cls l r c d r' c' = (
  record { region = false; cdev = false; device = false; class = dangling },
  ground (arith, l),
  refl,
  refl,
  refl,
  ground arith,
)
