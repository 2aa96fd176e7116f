-- ===== src/Send/Room/Laws.antt =====
-- A segment that finds no room keeps no memory.
use smews.Base.{ℕ, ◌≡◌, ◌<◌, Option, none, some, List, [], ◌∷◌, ◌++◌, if◌then◌else◌, u16}
use smews.Memory.{Allocator}
use smews.Memory.Chain.{Span, span}
use smews.Service.{Sizes, ServiceHeader, GeneratorService, InFlight, Infos, context, buffer}
use smews.Send.Room.{Room}
use smews.Send.Room.Owns.{Words, Owns}

-- the sizes in words of a buffer, of an in-flight segment, of a context and of its stack
pub record WordSizes : Type 0 where
  pub buffer_words : ℕ
  pub in_flight_words : ℕ
  pub context_words : ℕ
  pub stack_words : ℕ

-- the blocks of a copied context
abbrev pub context_spans : WordSizes → Infos → List Span
context_spans w (buffer p) = []
context_spans w (context p none size) = span p w.context_words ∷ []
context_spans w (context p (some q) size) = span q w.stack_words ∷ span p w.context_words ∷ []

abbrev pub newest_spans : WordSizes → List InFlight → List Span
newest_spans w [] = []
newest_spans w (i ∷ is) = context_spans w i.infos

-- The blocks at the addresses in a `Room`, the last that was taken first: those of the context that a service
-- without buffers has in its newest segment, the in-flight segment, and the buffer.
abbrev pub room_spans : WordSizes → Room → List Span
room_spans w r = elim r.if_infos [
  | none ↦ span r.buffer_at w.buffer_words ∷ []
  | some i ↦
      (if r.service.is_persistent then [] else newest_spans w r.service.in_flight_infos)
      ++ span i w.in_flight_words ∷ span r.buffer_at w.buffer_words ∷ []
]

-- what `make_room` took of the free memory: nothing, where it found no room
abbrev pub taken_by : WordSizes → Option Room → List Span
taken_by w none = []
taken_by w (some r) = room_spans w r

-- what a run leaves
abbrev pub Left : ℕ → ℕ → WordSizes → Option (Option Room × Allocator) → Type 0
Left words sum w result =
    (r : Option Room) × (heap' : Allocator) × (bs' : List Span) × (result ≡ some (r, heap'))
    × Owns words sum heap' (taken_by w r) bs'

module _ (words fuel sum : ℕ) (f : words < fuel) (z : Sizes) (sp nb ni nc ns : ℕ)
    (service : GeneratorService) (next_outseqno : ℕ) (header : ServiceHeader)
    (wb : Words z.output_buffer_size nb) (wi : Words z.in_flight_size ni)
    (wc : Words z.context_size nc) (ws : Words (u16 sp) ns) where
  abbrev words_of : WordSizes
  words_of = record {
    buffer_words = nb;
    in_flight_words = ni;
    context_words = nc;
    stack_words = ns;
  }
