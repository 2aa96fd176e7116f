-- ===== src/Receive/Request/Value.antt =====
-- The characters of an argument's value, behind `=`.
use smews.Base.{ℕ, ◌+◌, ◌≡◌, refl, ap, ◌∙◌, true, false, ◌||◌, some, List, [], ◌∷◌, ◌++◌, leb, ◌==◌}
use smews.Connections.{parsing_url, parsing_end}
use smews.Receive.Tree.{read}
use smews.Receive.Tree.Ternary.Child.{ref-leb}
use smews.Receive.Request.{
  Site, Parse, go_on, stop, fall, is_404, at_resource, value_char, other_char, behind_resource,
  parse_char, put_value, parsed, parse_chars,
}
use smews.Receive.Tree.Ternary.Position.{IsPlain, or-split, plain-split}
use smews.Receive.Request.Walk.{parse_chars-go_on, parse_chars-stop}
use smews.Receive.Request.Args.{put_values}

-- a value goes on until `&` or a space
abbrev pub IsValueChar : ℕ → Type 0
IsValueChar c = ((c == 38) || (c == 32)) ≡ false

abbrev pub IsValue : List ℕ → Type 0
IsValue [] = Unit {0}
IsValue (c ∷ cs) = IsValueChar c × IsValue cs

plain-IsValueChar : (c : ℕ) → IsPlain c → IsValueChar c
plain-IsValueChar c plain = let (a, b, d, e) = plain-split c plain in rw (a, e) refl

module _ (site : Site) (fuel : ℕ) (p : Parse) where
  -- the state with what is left of the tree, and the bytes of the arguments
  abbrev at : List ℕ → (ℕ → ℕ) → Parse
  at w bytes = record p { blob = w; bytes = bytes }

  abbrev pub value_end : List ℕ → (ℕ → ℕ) → Parse
  value_end w bytes = record p {
    blob = w;
    bytes = bytes;
    http = record p.http { ready_to_send = true; parsing_state = parsing_end };
  }

  module _ (url : p.http.parsing_state ≡ parsing_url)
      (in_arg : (p.http.arg_ref_index == 128) ≡ false)
      (found : is_404 site p.output_handler ≡ false) where
    other_char-value :
        (c : ℕ) (w : List ℕ) (bytes : ℕ → ℕ)
        → IsValueChar c
        → other_char site c (at w bytes)
          ≡ some (
              go_on
                (at w (put_value p.arg_ref.arg_type p.arg_ref.arg_size p.http.curr_arg c bytes)))
    unfolding other_char value_char
    other_char-value c w bytes v =
        let (a, b) = or-split (c == 38) (c == 32) v in rw (in_arg, a, b) refl

    parse_char-value :
        (c : ℕ) (w : List ℕ) (bytes : ℕ → ℕ)
        → leb 128 (read w 0) ≡ false
        → parse_char site fuel c (at w bytes) ≡ other_char site c (at w bytes)
    unfolding parse_char
    parse_char-value c w bytes h = rw h refl

    at_resource-name :
        (c k : ℕ) (w : List ℕ) (bytes : ℕ → ℕ)
        → IsPlain c
        → at_resource site fuel (128 + k) c (at ((128 + k) ∷ w) bytes) ≡ some (fall (at w bytes))
    unfolding at_resource
    at_resource-name c k w bytes plain =
        let (a, b, d, e) = plain-split c plain in rw (url, a, b, d, e) refl

    parse_char-first :
        (c k : ℕ) (w : List ℕ) (bytes : ℕ → ℕ)
        → IsPlain c
        → parse_char site fuel c (at ((128 + k) ∷ w) bytes) ≡ other_char site c (at w bytes)
    unfolding parse_char behind_resource
    parse_char-first c k w bytes plain = rw (ref-leb k, at_resource-name c k w bytes plain) refl

    parse_char-end :
        (w : List ℕ) (bytes : ℕ → ℕ)
        → leb 128 (read w 0) ≡ false
        → parse_char site fuel 32 (at w bytes) ≡ some (stop (value_end w bytes))
    unfolding parse_char other_char value_char
    parse_char-end w bytes h = rw (h, in_arg) refl

    parse_chars-rest :
        (cs more w : List ℕ) (bytes : ℕ → ℕ)
        → leb 128 (read w 0) ≡ false
        → IsValue cs
        → parse_chars site fuel (cs ++ (32 ∷ more)) (at w bytes)
          ≡ some (
              parsed
                (value_end w
                  (put_values p.arg_ref.arg_type p.arg_ref.arg_size p.http.curr_arg cs bytes))
                more)
    parse_chars-rest [] more w bytes h v =
        parse_chars-stop site fuel (at w bytes) found 32 more (value_end w bytes)
          (parse_char-end w bytes h)
    parse_chars-rest (c ∷ cs) more w bytes h v =
        parse_chars-go_on site fuel (at w bytes) found c (cs ++ (32 ∷ more)) _
          (parse_char-value c w bytes h ∙ other_char-value c w bytes v.0)
        ∙ parse_chars-rest cs more w
            (put_value p.arg_ref.arg_type p.arg_ref.arg_size p.http.curr_arg c bytes) h v.1

    -- In a URL with a handler other than that of error 404, behind the `=` of an argument whose name's byte is in front of one
    -- below 128: the characters of a value that is not empty, has no `&` or space and does not begin with `=` or `?` are put
    -- into that argument in order, until a space ends the URL; then the request may be sent, and nothing behind is read.
    pub parse_chars-value :
        (c : ℕ) (cs more : List ℕ) (k : ℕ) (w : List ℕ)
        → p.blob ≡ (128 + k) ∷ w
        → leb 128 (read w 0) ≡ false
        → IsPlain c
        → IsValue cs
        → parse_chars site fuel (c ∷ cs ++ (32 ∷ more)) p
          ≡ some (
              parsed
                (value_end w (
                  put_values p.arg_ref.arg_type p.arg_ref.arg_size p.http.curr_arg
                    (c ∷ cs)
                    p.bytes))
                more)
    parse_chars-value c cs more k w name h plain v =
        ap (λ b. parse_chars site fuel (c ∷ cs ++ (32 ∷ more)) (record p { blob = b })) name
        ∙ parse_chars-go_on site fuel (at ((128 + k) ∷ w) p.bytes) found c (cs ++ (32 ∷ more)) _ (
            parse_char-first c k w p.bytes plain
            ∙ other_char-value c w p.bytes (plain-IsValueChar c plain))
        ∙ parse_chars-rest cs more w
            (put_value p.arg_ref.arg_type p.arg_ref.arg_size p.http.curr_arg c p.bytes) h v
