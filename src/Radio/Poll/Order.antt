-- ===== src/Radio/Poll/Order.antt =====
-- The process of dev/cc2420-tsch.c hands on the frames that the interrupt kept, in their order.
use tsch_minimum.Prelude.{
  ℕ, zero, suc, ◌+◌, ◌<◌, ◌≤◌, ◌≡◌, refl, ap, ap₂, ◌∙◌, true, false, some, List, [], ◌∷◌, map, ltb,
  arith, if◌then◌else◌, take, length, length-take, branch,
}
use tsch_minimum.Radio.Frame.{ReceivedFrame}
use tsch_minimum.Radio.Interrupt.{Library, Driver, cc2420_read, read_frame, crc_ok, aux_len}
use tsch_minimum.Radio.Poll.{
  AckRead, rxfifo_addr, flush_if_needed, without_ack, cc2420_process, cc2420_read_ack,
}

-- `list_pop` of Contiki's lists removes the first item.
pub record IsFifo (lib : Library) : Type 0 where
  pub pop_head : (xs : List ℕ) (x : ℕ) → lib.list_pop (x ∷ xs) ≡ (xs, some x)

-- What the MAC gets of a frame: nothing of one that does not fit, or that is an acknowledgment.
abbrev pub handed_on : ℕ → ℕ → ReceivedFrame → List ℕ
handed_on bufsize older f = without_ack older (if ltb bufsize f.len then [] else take f.len f.buf)

module _ (lib : Library) where
  -- Polls one after the other.
  unfoldable pub polls : ℕ → ℕ → ℕ → Driver lib → Driver lib × List (List ℕ)
  polls bufsize older zero d = (d, [])
  polls bufsize older (suc n) d =
      let (d', timestamp, bytes) = cc2420_process lib bufsize older d in
      let (d'', rest) = polls bufsize older n d' in (d'', bytes ∷ rest)

module _ (lib : Library) (laws : IsFifo lib) where
  record Popped (d d' : Driver lib) (ks : List ℕ) : Type 0 where
    left : d'.rf_list ≡ ks
    same_frames : d'.frame_of ≡ d.frame_of

  flush-Popped : (d : Driver lib) → Popped d (flush_if_needed lib d) d.rf_list
  unfolding flush_if_needed
  flush-Popped d =
      branch (λ t. Popped d t d.rf_list) d.radio.need_flush
        (record { left = refl; same_frames = refl }) (record { left = refl; same_frames = refl })

  read-head :
      (bufsize : ℕ) (d : Driver lib) (k : ℕ) (ks : List ℕ)
      → d.rf_list ≡ k ∷ ks
      → let (d', bytes) = cc2420_read lib bufsize d in
        Popped d d' ks
        × (bytes ≡ (
            if ltb bufsize (d.frame_of k).len
            then []
            else take (d.frame_of k).len (d.frame_of k).buf))
  unfolding cc2420_read read_frame
  read-head bufsize d k ks e =
      rw (e, laws.pop_head ks k) (record { left = refl; same_frames = refl }, refl)

  process-head :
      (bufsize older : ℕ) (d : Driver lib) (k : ℕ) (ks : List ℕ)
      → d.rf_list ≡ k ∷ ks
      → let (d', timestamp, bytes) = cc2420_process lib bufsize older d in
        Popped d d' ks × (bytes ≡ handed_on bufsize older (d.frame_of k))
  unfolding cc2420_process
  process-head bufsize older d k ks e =
      let fl = flush-Popped d in
      let (popped, bytes) = read-head bufsize (flush_if_needed lib d) k ks (fl.left ∙ e) in
      (
        record { left = popped.left; same_frames = popped.same_frames ∙ fl.same_frames },
        ap (without_ack older) bytes
            ∙ ap (λ frames. handed_on bufsize older (frames k)) fl.same_frames,
      )

  -- As many polls as the interrupt kept frames hand them on in the order in which they came, each
  -- whole, but for those longer than the buffer and acknowledgments, of which nothing is handed on;
  -- after them no frame is left.
  pub polls_in_order :
      (bufsize older : ℕ) (ks : List ℕ) (d : Driver lib)
      → d.rf_list ≡ ks
      → let (d', handed) = polls lib bufsize older (length ks) d in
        (handed ≡ map (λ k. handed_on bufsize older (d.frame_of k)) ks) × (d'.rf_list ≡ [])
  unfolding polls
  polls_in_order bufsize older [] d e = (refl, e)
  polls_in_order bufsize older (k ∷ ks) d e =
      let (popped, bytes) = process-head bufsize older d k ks e in
      let d' = (cc2420_process lib bufsize older d).0 in
      let (rest, none_left) = polls_in_order bufsize older ks d' popped.left in
      (
        ap₂ (λ x xs. x ∷ xs) bytes
            (rest
              ∙ ap (λ frames. map (λ j. handed_on bufsize older (frames j)) ks) popped.same_frames),
        none_left,
      )

-- An acknowledgment that is read from the FIFO is written to the caller's buffer whole, however
-- short the buffer is: the number of bytes written is the length byte, if the FIFO has as many and
-- the footer that is read has the bit for a good CRC.
pub read_ack_overruns :
    (lib : Library) (hw : AckRead) (alen : ℕ) (d : Driver lib)
    → 0 < hw.length_byte
    → hw.length_byte ≤ length hw.fifo_bytes
    → hw.overflow ≡ false
    → crc_ok (hw.ram (rxfifo_addr (hw.length_byte + aux_len))) ≡ true
    → length (cc2420_read_ack lib hw alen d).1 ≡ hw.length_byte
unfolding cc2420_read_ack
read_ack_overruns lib hw alen d some_byte enough no_overflow crc =
    ground (arith, length-take hw.length_byte hw.fifo_bytes, some_byte, enough, no_overflow, crc)
