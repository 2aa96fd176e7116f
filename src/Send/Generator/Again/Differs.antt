-- ===== src/Send/Generator/Again/Differs.antt =====
-- Where a segment of a generator is not the same when it is sent again.
use smews.Base.{ℕ, ◌≡◌, refl, ap, ap₂, ◌∙◌, true, false, not, ◌||◌, some, if◌then◌else◌}
use smews.Service.{Sizes, InFlight, buffer, if_select, header_standard, header_chunks}
use smews.Send.Generate.{Point, select_header}
use smews.Send.Generator.{Site, is_retransmitting}
use smews.Send.Generator.Segment.{make_segment, new_segment, kept_segment}
use smews.Send.Generator.Finish.{choose_header}
use smews.Send.Generator.Again.First.{begun}

kept_segment-found :
    (a : ℕ) (t : Site) (i : InFlight) (b : ℕ)
    → if_select t.active.http.next_outseqno (t.services a).in_flight_infos ≡ some i
    → i.infos ≡ buffer b
    → kept_segment a t
      ≡ some (
        true,
        record t {
          out = record t.out {
            buffer = t.buffers b;
            service_header = i.service_header;
            checksum = i.checksum;
          };
          buffer_at = some b;
          if_infos = some i.node;
        },
      )
unfolding kept_segment
kept_segment-found a t i b found kept = rw (kept_segment, found, kept) refl

make_segment-kept :
    (fuel : ℕ) (z : Sizes) (sp : Point → ℕ) (a : ℕ) (t : Site)
    → (t.services a).is_persistent ≡ true
    → is_retransmitting a t ≡ true
    → make_segment fuel z sp a t ≡ kept_segment a (begun t)
unfolding make_segment
make_segment-kept fuel z sp a t keeps again =
    ap₂
      (λ p k.
        if not p || not k then new_segment fuel z sp a (begun t) else kept_segment a (begun t))
      keeps again

-- A segment that was kept in a buffer with header_standard is sent again with the header of a chunk, and with the number of
-- characters of the segment that was generated last.
kept_segment-chunks :
    (fuel : ℕ) (z : Sizes) (sp : Point → ℕ) (a b : ℕ) (t : Site) (i : InFlight)
    → (t.services a).is_persistent ≡ true
    → is_retransmitting a t ≡ true
    → if_select t.active.http.next_outseqno (t.services a).in_flight_infos ≡ some i
    → i.infos ≡ buffer b
    → i.service_header ≡ header_standard
    → (t' : Site) × (make_segment fuel z sp a t ≡ some (true, t'))
      × ((choose_header false t').out ≡ record t.out {
        buffer = t.buffers b;
        checksum = i.checksum;
        service_header = header_chunks;
      })
unfolding choose_header select_header
kept_segment-chunks fuel z sp a b t i keeps again found kept standard = (
  record (begun t) {
    out = record t.out {
      buffer = t.buffers b;
      service_header = i.service_header;
      checksum = i.checksum;
    };
    buffer_at = some b;
    if_infos = some i.node;
  },
  make_segment-kept fuel z sp a t keeps again ∙ kept_segment-found a (begun t) i b found kept,
  ap
      (λ h. record t.out {
        buffer = t.buffers b;
        checksum = i.checksum;
        service_header = select_header false false h;
      })
      standard,
)
