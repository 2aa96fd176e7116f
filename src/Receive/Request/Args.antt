-- ===== src/Receive/Request/Args.antt =====
-- The bytes of the arguments of a request, as the characters of a value are put into them.
use smews.Base.{
  ℕ, zero, suc, ◌+◌, ◌-◌, ◌*◌, ◌/◌, ◌^◌, ◌≡◌, ◌≢◌, ◌≤◌, ◌<◌, ◌⊎◌, refl, arith, ap, ap₂, ◌∙◌, List,
  [], ◌∷◌, u8, length, get_or, map, inl, inr, ne-==,
}
use smews.Handlers.{ArgType, arg_str, arg_ui8, arg_ui16}
use smews.Generators.{arg_ui16_char, read_ui16, out_uint}
use smews.Generators.Digits.{read_ui16-out_uint}
use smews.Connections.Ring.Laws.{put_self, put-ne}
use smews.Receive.Request.{put_byte, put_str, put_ui16, put_value}

-- the size that a type of argument has
abbrev pub HasSize : ArgType → ℕ → Type 0
HasSize arg_str size = (0 < size) × (size < 256)
HasSize arg_ui8 size = 0 < size
HasSize arg_ui16 size = 1 < size

-- A string's last byte is the room that is left.
abbrev pub HasRoom : ArgType → ℕ → ℕ → (ℕ → ℕ) → Type 0
HasRoom arg_str size a bytes = bytes (a + size - 1) < size
HasRoom _ size a bytes = Unit {0}

-- the characters of a value, in order
abbrev pub put_values : ArgType → ℕ → ℕ → List ℕ → (ℕ → ℕ) → ℕ → ℕ
put_values t size a [] bytes = bytes
put_values t size a (c ∷ cs) bytes = put_values t size a cs (put_value t size a c bytes)

put_byte-ne : (bytes : ℕ → ℕ) (a v x : ℕ) → x ≢ a → put_byte bytes a v x ≡ bytes x
put_byte-ne bytes a v x ne = put-ne bytes a (u8 v) x ne

module _ (a size c : ℕ) (bytes : ℕ → ℕ) where
  put_str-full : bytes (a + size - 1) ≡ 0 → put_str a size c bytes ≡ bytes
  unfolding put_str
  put_str-full e = rw e refl

  put_str-room :
      0 < bytes (a + size - 1)
      → put_str a size c bytes
        ≡ put_byte
            (put_byte bytes (a + size - (bytes (a + size - 1) + 1)) c)
            (a + size - 1)
            (bytes (a + size - 1) - 1)
  unfolding put_str
  put_str-room l = rw (ne-== (bytes (a + size - 1)) 0 (omega arith)) refl

  room-cases : (bytes (a + size - 1) ≡ 0) ⊎ (0 < bytes (a + size - 1))
  room-cases = omega arith

  -- What changes is the last byte and the first one that is free.
  put_str-ne :
      (x : ℕ)
      → x ≢ a + size - (bytes (a + size - 1) + 1)
      → x ≢ a + size - 1
      → put_str a size c bytes x ≡ bytes x
  put_str-ne x first last = elim room-cases [
    | inl e ↦ ap (λ f. f x) (put_str-full e)
    | inr l ↦
        ap (λ f. f x) (put_str-room l)
        ∙ put_byte-ne (put_byte bytes (a + size - (bytes (a + size - 1) + 1)) c) (a + size - 1)
            (bytes (a + size - 1) - 1) x last
        ∙ put_byte-ne bytes (a + size - (bytes (a + size - 1) + 1)) c x first
  ]

  put_str-here :
      (k : ℕ)
      → bytes (a + size - 1) + k + 1 ≡ size
      → k + 1 < size
      → put_str a size c bytes (a + k) ≡ u8 c
  put_str-here k free l =
      ap (λ f. f (a + k)) (put_str-room (omega arith))
      ∙ put_byte-ne (put_byte bytes (a + size - (bytes (a + size - 1) + 1)) c) (a + size - 1)
          (bytes (a + size - 1) - 1) (a + k) (omega arith)
      ∙ ap (λ i. put_byte bytes (a + size - (bytes (a + size - 1) + 1)) c i) (omega arith)
      ∙ put_self bytes (a + size - (bytes (a + size - 1) + 1)) (u8 c)

  put_str-last :
      0 < size
      → size < 256
      → bytes (a + size - 1) < size
      → put_str a size c bytes (a + size - 1) ≡ bytes (a + size - 1) - 1
  put_str-last s s' room = elim room-cases [
    | inl e ↦ ap (λ f. f (a + size - 1)) (put_str-full e) ∙ omega arith
    | inr l ↦
        ap (λ f. f (a + size - 1)) (put_str-room l)
        ∙ put_self (put_byte bytes (a + size - (bytes (a + size - 1) + 1)) c) (a + size - 1)
            (u8 (bytes (a + size - 1) - 1))
        ∙ omega arith
  ]

put_value-outside :
    (t : ArgType) (size a c : ℕ) (bytes : ℕ → ℕ) (x : ℕ)
    → HasSize t size
    → HasRoom t size a bytes
    → (x < a) ⊎ (a + size ≤ x)
    → put_value t size a c bytes x ≡ bytes x
unfolding put_value
put_value-outside arg_str size a c bytes x s room out =
    put_str-ne a size c bytes x (omega (arith, room, s.0, out)) (omega (arith, s.0, out))
put_value-outside arg_ui8 size a c bytes x s room out =
    put_byte-ne bytes a (u8 (bytes a * 10) + 2 ^ 8 + c - 48) x (omega arith)
put_value-outside arg_ui16 size a c bytes x s room out =
    put_byte-ne (put_byte bytes a v) (a + 1) (v / 2 ^ 8) x (omega arith)
    ∙ put_byte-ne bytes a v x (omega arith)
  where
    v : ℕ
    v = arg_ui16_char (bytes (a + 1) * 2 ^ 8 + bytes a) c

put_value-HasRoom :
    (t : ArgType) (size a c : ℕ) (bytes : ℕ → ℕ)
    → HasSize t size
    → HasRoom t size a bytes
    → HasRoom t size a (put_value t size a c bytes)
unfolding put_value
put_value-HasRoom arg_str size a c bytes s room =
    omega (arith, put_str-last a size c bytes s.0 s.1 room)
put_value-HasRoom arg_ui8 size a c bytes s room = tt
put_value-HasRoom arg_ui16 size a c bytes s room = tt

-- For an argument with at least the size of its type, a string below 256 bytes with less room left than its size, reading
-- the characters of a value changes no byte outside the argument, however many they are.
pub put_values-outside :
    (t : ArgType) (size a : ℕ) (cs : List ℕ) (bytes : ℕ → ℕ) (x : ℕ)
    → HasSize t size
    → HasRoom t size a bytes
    → (x < a) ⊎ (a + size ≤ x)
    → put_values t size a cs bytes x ≡ bytes x
put_values-outside t size a [] bytes x s room out = refl
put_values-outside t size a (c ∷ cs) bytes x s room out =
    put_values-outside t size a cs (put_value t size a c bytes) x s
      (put_value-HasRoom t size a c bytes s room) out
    ∙ put_value-outside t size a c bytes x s room out

arg_ui16_char-lt : (v c : ℕ) → arg_ui16_char v c < 2 ^ 16
unfolding arg_ui16_char
arg_ui16_char-lt v c = omega arith

module _ (size a : ℕ) (positive : 0 < size) (small : size < 256) where
  put_values-kept :
      (cs : List ℕ) (bytes : ℕ → ℕ) (x : ℕ)
      → bytes (a + size - 1) < size
      → x + bytes (a + size - 1) + 1 < a + size
      → put_values arg_str size a cs bytes x ≡ bytes x
  unfolding put_value
  put_values-kept [] bytes x room free = refl
  put_values-kept (c ∷ cs) bytes x room free =
      let last = put_str-last a size c bytes positive small room in
      put_values-kept cs (put_str a size c bytes) x (omega arith) (omega arith)
      ∙ put_str-ne a size c bytes x (omega arith) (omega arith)

  put_values-last :
      (cs : List ℕ) (bytes : ℕ → ℕ)
      → bytes (a + size - 1) < size
      → put_values arg_str size a cs bytes (a + size - 1) ≡ bytes (a + size - 1) - length cs
  unfolding put_value
  put_values-last [] bytes room = omega arith
  put_values-last (c ∷ cs) bytes room =
      let last = put_str-last a size c bytes positive small room in
      put_values-last cs (put_str a size c bytes) (omega arith) ∙ omega arith

  -- With k characters in place, the next ones follow them.
  put_values-from :
      (cs : List ℕ) (bytes : ℕ → ℕ) (k j : ℕ)
      → bytes (a + size - 1) + k + 1 ≡ size
      → k + j + 1 < size
      → put_values arg_str size a cs bytes (a + (k + j))
        ≡ get_or (map u8 cs) j (bytes (a + (k + j)))
  unfolding put_value
  put_values-from [] bytes k j free inside = refl
  put_values-from (c ∷ cs) bytes k zero free inside =
      let last = put_str-last a size c bytes positive small (omega arith) in
      put_values-kept cs (put_str a size c bytes) (a + (k + 0)) (omega arith) (omega arith)
      ∙ ap (λ i. put_str a size c bytes (a + i)) (omega arith)
      ∙ put_str-here a size c bytes k free (omega arith)
  put_values-from (c ∷ cs) bytes k (suc j) free inside =
      let last = put_str-last a size c bytes positive small (omega arith) in
      ap (λ i. put_values arg_str size a cs (put_str a size c bytes) (a + i)) (omega arith)
      ∙ put_values-from cs (put_str a size c bytes) (suc k) j (omega arith) (omega arith)
      ∙ ap (get_or (map u8 cs) j) (
          put_str-ne a size c bytes (a + (suc k + j)) (omega arith) (omega arith)
          ∙ ap (λ i. bytes (a + i)) (omega arith))

  -- A string argument of 1 to 255 bytes whose last byte is its size less 1, as `=` leaves it, keeps the characters of its
  -- value that it has room for, each in its place, leaves the bytes behind them as they were, and has in its last byte
  -- the room that is left, 0 where it is full.
  pub put_values-str :
      (cs : List ℕ) (bytes : ℕ → ℕ) (i : ℕ)
      → bytes (a + size - 1) ≡ size - 1
      → i + 1 < size
      → (put_values arg_str size a cs bytes (a + i) ≡ get_or (map u8 cs) i (bytes (a + i)))
        × (put_values arg_str size a cs bytes (a + size - 1) ≡ size - 1 - length cs)
  put_values-str cs bytes i empty inside = (
    ap (λ n. put_values arg_str size a cs bytes (a + n)) (omega arith)
        ∙ put_values-from cs bytes 0 i (omega arith) (omega arith)
        ∙ ap (λ n. get_or (map u8 cs) i (bytes (a + n))) (omega arith),
    put_values-last cs bytes (omega arith) ∙ ap (λ n. n - length cs) empty,
  )

-- the 16-bit number at an address
abbrev pub ui16_at : (ℕ → ℕ) → ℕ → ℕ
ui16_at bytes a = bytes (a + 1) * 2 ^ 8 + bytes a

ui16_at-put :
    (a c : ℕ) (bytes : ℕ → ℕ) → ui16_at (put_ui16 a c bytes) a ≡ arg_ui16_char (ui16_at bytes a) c
unfolding put_ui16
ui16_at-put a c bytes =
    ap₂ (λ high low. high * 2 ^ 8 + low) (put_self (put_byte bytes a v) (a + 1) (u8 (v / 2 ^ 8)))
      (put_byte-ne (put_byte bytes a v) (a + 1) (v / 2 ^ 8) a (omega arith)
        ∙ put_self bytes a (u8 v))
    ∙ two (arg_ui16_char-lt (ui16_at bytes a) c)
  where
    v : ℕ
    v = arg_ui16_char (ui16_at bytes a) c

    two : v < 2 ^ 16 → u8 (v / 2 ^ 8) * 2 ^ 8 + u8 v ≡ v
    two l = omega arith

-- A 16-bit argument gets the number that its characters are read as.
put_values-ui16 :
    (size a : ℕ) (cs : List ℕ) (bytes : ℕ → ℕ)
    → ui16_at (put_values arg_ui16 size a cs bytes) a ≡ read_ui16 cs (ui16_at bytes a)
unfolding put_value read_ui16
put_values-ui16 size a [] bytes = refl
put_values-ui16 size a (c ∷ cs) bytes =
    put_values-ui16 size a cs (put_ui16 a c bytes) ∙ ap (read_ui16 cs) (ui16_at-put a c bytes)

-- The decimal digits of a 16-bit number, as `out_uint` writes them, read into an argument of zeros leave that number
-- there, its low byte first.
pub put_values-out_uint :
    (size a n : ℕ) (bytes : ℕ → ℕ)
    → ui16_at bytes a ≡ 0
    → n < 2 ^ 16
    → ui16_at (put_values arg_ui16 size a (out_uint n) bytes) a ≡ n
put_values-out_uint size a n bytes zeros small =
    put_values-ui16 size a (out_uint n) bytes
    ∙ ap (read_ui16 (out_uint n)) zeros
    ∙ read_ui16-out_uint n small
