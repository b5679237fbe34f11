-- ===== src/Bbrl/Camac.antt =====
-- bbrl.c under #ifdef CAMAC, without K2915: readouts through a CAMAC crate controller.
pub mod Framed
pub mod Memory
use p42018_vmedaq.Common.{
  ℕ, zero, suc, ◌+◌, ◌-◌, ◌*◌, ◌==◌, Bool, if◌then◌else◌, List, ◌∷◌, u16, bit_or, write_words,
}
use p42018_vmedaq.Device.{
  History, Call, camac_read16, camac_read24, camac_write16, camac_control, camac_block16,
  camac_block24,
}
use p42018_vmedaq.Daq.{
  Daq, M, ◌>>=◌, ◌>>◌, pure, gets, modify, call, push_word, store_word, store_long, advance,
}
use p42018_vmedaq.Bbrl.{half}

-- What bb-camac.h and nbbqdrv.h declare of the crate controller: the address CNAFGEN(c, n, a, f),
-- the transfer modes, what a read answers, and for a block read the words it stores and its result.
pub record Camac : Type 0 where
  pub cnafgen : ℕ → ℕ → ℕ → ℕ → ℕ
  pub qscan : ℕ
  pub qignore : ℕ
  pub qrepeat : ℕ
  pub qstop : ℕ
  pub word_reply : History → ℕ → ℕ
  pub long_reply : History → ℕ → ℕ
  pub block_words : History → Call → List ℕ
  pub block_count : History → Call → ℕ

module _ (cam : Camac) where
  -- read16(cnaf, data + mp)
  abbrev pub camac_word_at_mp : ℕ → M (Unit {0})
  camac_word_at_mp cnaf = do
    w ← gets (λ d. cam.word_reply d.calls cnaf)
    call (camac_read16 cnaf)
    i ← gets (λ d. d.mp)
    store_word i w

  -- read24(cnaf, data + mp)
  abbrev pub camac_long_at_mp : ℕ → M (Unit {0})
  camac_long_at_mp cnaf = do
    v ← gets (λ d. cam.long_reply d.calls cnaf)
    call (camac_read24 cnaf)
    i ← gets (λ d. d.mp)
    store_long i v

  -- block_read16 or block_read24 to data + mp, with its result
  abbrev pub camac_block_at_mp : Call → M ℕ
  camac_block_at_mp c = do
    ws ← gets (λ d. cam.block_words d.calls c)
    n ← gets (λ d. cam.block_count d.calls c)
    call c
    modify (λ d. record d { mem = write_words d.mem (d.base + d.mp) ws })
    pure n

  unfoldable pub read_segdata : ℕ → ℕ → ℕ → ℕ → M ℕ
  read_segdata c n a f = do
    camac_word_at_mp (cam.cnafgen c n a f)
    advance 1
    gets (λ d. d.segmentsize)

  unfoldable pub read_segdata24 : ℕ → ℕ → ℕ → ℕ → M ℕ
  read_segdata24 c n a f = do
    camac_long_at_mp (cam.cnafgen c n a f)
    advance 2
    gets (λ d. d.segmentsize)

  -- for(i = 0; i < len; i++), with `a` counted up
  unfoldable pub segndata_loop : ℕ → ℕ → ℕ → ℕ → ℕ → M (Unit {0})
  segndata_loop zero c n a f = pure tt
  segndata_loop (suc len) c n a f = do
    camac_word_at_mp (cam.cnafgen c n a f)
    advance 1
    segndata_loop len c n (a + 1) f

  unfoldable pub read_segndata : ℕ → ℕ → ℕ → ℕ → ℕ → M ℕ
  read_segndata len c n a f = do segndata_loop len c n a f; gets (λ d. d.segmentsize)

  unfoldable pub read_segsdata : ℕ → ℕ → ℕ → ℕ → ℕ → M ℕ
  read_segsdata len c n a f = do segndata_loop len c n a f; gets (λ d. d.segmentsize)

  unfoldable pub read_segbdata : ℕ → ℕ → ℕ → ℕ → ℕ → M ℕ
  read_segbdata len c n a f = do
    _ ← camac_block_at_mp (camac_block16 cam.qignore (cam.cnafgen c n a f) len)
    advance len
    gets (λ d. d.segmentsize)

  unfoldable pub read_segqrdata : ℕ → ℕ → ℕ → ℕ → ℕ → M ℕ
  read_segqrdata len c n a f = do
    rlen ← camac_block_at_mp (camac_block16 cam.qrepeat (cam.cnafgen c n a f) len)
    advance rlen
    gets (λ d. d.segmentsize)

  unfoldable pub read_segqsdata : ℕ → ℕ → ℕ → ℕ → ℕ → M ℕ
  read_segqsdata len c n a f = do
    rlen ← camac_block_at_mp (camac_block16 cam.qstop (cam.cnafgen c n a f) len)
    advance rlen
    gets (λ d. d.segmentsize)

  -- The same loop, not counted in a segment.
  unfoldable pub segmod_loop : ℕ → ℕ → ℕ → ℕ → ℕ → M (Unit {0})
  segmod_loop zero c n a f = pure tt
  segmod_loop (suc len) c n a f = do
    camac_word_at_mp (cam.cnafgen c n a f)
    modify (λ d. record d { mp = d.mp + 1 })
    segmod_loop len c n (a + 1) f

  unfoldable pub read_segmod : ℕ → ℕ → ℕ → ℕ → ℕ → ℕ → M ℕ
  read_segmod len segid c n a f = do
    push_word (len + 2)
    push_word segid
    segmod_loop len c n a f
    modify (λ d. record d { eventsize = d.eventsize + (len + 2) })
    pure (len + 2)

  -- read_segsmod and read_segbmod, by the transfer mode
  unfoldable pub read_block_segment : ℕ → ℕ → ℕ → ℕ → M ℕ
  read_block_segment mode len segid cnaf = do
    modify (λ d. record d { segmenthmp = d.mp; mp = d.mp + 1 })
    push_word segid
    _ ← camac_block_at_mp (camac_block16 mode cnaf len)
    modify (λ d. record d { mp = d.mp + len })
    at ← gets (λ d. d.segmenthmp)
    store_word at (len + 2)
    modify (λ d. record d { eventsize = d.eventsize + (len + 2) })
    pure (len + 2)

  unfoldable pub read_segsmod : ℕ → ℕ → ℕ → ℕ → ℕ → ℕ → M ℕ
  read_segsmod len segid c n a f = read_block_segment cam.qscan len segid (cam.cnafgen c n a f)

  unfoldable pub read_segbmod : ℕ → ℕ → ℕ → ℕ → ℕ → ℕ → M ℕ
  read_segbmod len segid c n a f = read_block_segment cam.qignore len segid (cam.cnafgen c n a f)

  -- for(i = 0; i < len; i++) of read_scaler, by the rounds that are left
  unfoldable pub scaler_loop : ℕ → ℕ → ℕ → ℕ → M (Unit {0})
  scaler_loop zero i c n = pure tt
  scaler_loop (suc left) i c n = do
    camac_long_at_mp (cam.cnafgen c n i 0)
    modify (λ d. record d { mp = d.mp + 2 })
    scaler_loop left (i + 1) c n

  unfoldable pub read_scaler : ℕ → ℕ → ℕ → ℕ → M ℕ
  read_scaler pos len c n = do
    modify (λ d. record d { mp = half - len * 2 * pos })
    scaler_loop len 0 c n
    pure (len * 2)

  unfoldable pub read_sscaler : ℕ → ℕ → ℕ → ℕ → M ℕ
  read_sscaler pos len c n = do
    modify (λ d. record d { mp = half - len * 2 * pos })
    _ ← camac_block_at_mp (camac_block24 cam.qscan (cam.cnafgen c n 0 0) len)
    pure (len * 2)

  unfoldable pub read_pedestal : ℕ → ℕ → ℕ → ℕ → M ℕ
  read_pedestal type c n vsn = do
    push_word type
    push_word (bit_or (c * 256) n)
    push_word vsn
    let len : ℕ = if type == 0 then 16 else 8
    _ ← camac_block_at_mp (camac_block16 cam.qignore (cam.cnafgen c n 0 2) len)
    modify (λ d. record d { mp = d.mp + len })
    gets (λ d. d.mp)

  -- the word that `data` points to
  unfoldable pub write_mod : ℕ → ℕ → ℕ → ℕ → ℕ → M (Unit {0})
  write_mod c n a f val = call (camac_write16 (cam.cnafgen c n a f) (u16 val))

  unfoldable pub write_data : ℕ → ℕ → ℕ → ℕ → ℕ → M (Unit {0})
  write_data c n a f val = call (camac_write16 (cam.cnafgen c n a f) (u16 val))

  unfoldable pub control_mod : ℕ → ℕ → ℕ → ℕ → M (Unit {0})
  control_mod c n a f = call (camac_control (cam.cnafgen c n a f))
