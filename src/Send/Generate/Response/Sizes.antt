-- ===== src/Send/Generate/Response/Sizes.antt =====
-- The digits of a length, as the server writes them and a client reads them.
use smews.Base.{
  ℕ, zero, suc, ◌+◌, ◌*◌, ◌/◌, ◌%◌, ◌^◌, ◌≡◌, ◌<◌, refl, sym, ap, ◌∙◌, arith, false, some, List, [],
  ◌∷◌, ◌++◌, ◌==◌,
}
use smews.Checksum.{Sum, checksum_add}
use smews.Service.{header_none, header_standard, header_chunks}
use smews.Send.Packet.{add16}
use smews.Send.Segment.{decimal_char, hex_char, write_digits, length_digits}
use smews.Send.Generate.Response.{digit, read_size}

-- a way to write digits that `digit` reads back
record Digits (base : ℕ) (char : ℕ → ℕ) : Type 0 where
  pub back : (d : ℕ) → d < base → digit (char d) ≡ d
  pub other : (d : ℕ) → d < base → (char d == 13) ≡ false
  pub last : (n : ℕ) → n % base < base
  pub nothing : (n : ℕ) → n < base ^ 0 → n ≡ 0
  pub smaller : (k n : ℕ) → n < base ^ suc k → n / base < base ^ k
  pub joined : (n : ℕ) → n / base * base + n % base ≡ n

decimal-Digits : Digits 10 decimal_char
unfolding digit
decimal-Digits = record {
  back = λ d l. ground arith;
  other = λ d l. ground arith;
  last = λ n. omega arith;
  nothing = λ n l. omega arith;
  smaller = λ k n l. omega arith;
  joined = λ n. omega arith;
}

hex-Digits : Digits 16 hex_char
unfolding digit
hex-Digits = record {
  back = λ d l. ground arith;
  other = λ d l. ground arith;
  last = λ n. omega arith;
  nothing = λ n l. omega arith;
  smaller = λ k n l. omega arith;
  joined = λ n. omega arith;
}

module _ (base : ℕ) (char : ℕ → ℕ) (digits : Digits base char) where
  read_size-char :
      (n d : ℕ) (cs : List ℕ)
      → d < base
      → read_size base n (char d ∷ cs) ≡ read_size base (n * base + d) cs
  unfolding read_size
  read_size-char n d cs l =
      rw (digits.other d l) (ap (λ e. read_size base (n * base + e) cs) (digits.back d l))

  read_size-write_digits :
      (k n : ℕ) (s : Sum) (cs : List ℕ)
      → n < base ^ k
      → read_size base 0 (write_digits base char k n s cs).0 ≡ read_size base n cs
  unfolding write_digits
  read_size-write_digits zero n s cs l = ap (λ m. read_size base m cs) (sym (digits.nothing n l))
  read_size-write_digits (suc k) n s cs l =
      read_size-write_digits k (n / base) (checksum_add s (char (n % base))) (char (n % base) ∷ cs)
        (digits.smaller k n l)
      ∙ read_size-char (n / base) (n % base) cs (digits.last n)
      ∙ ap (λ m. read_size base m cs) (digits.joined n)

  write_digits-append :
      (k n : ℕ) (s : Sum) (xs ys : List ℕ)
      → (write_digits base char k n s (xs ++ ys)).0 ≡ (write_digits base char k n s xs).0 ++ ys
  unfolding write_digits
  write_digits-append zero n s xs ys = refl
  write_digits-append (suc k) n s xs ys =
      write_digits-append k (n / base) (checksum_add s (char (n % base))) (char (n % base) ∷ xs) ys

  read_size-line :
      (k n : ℕ) (s : Sum) (cs : List ℕ)
      → n < base ^ k
      → read_size base 0 ((write_digits base char k n s []).0 ++ (13 ∷ cs)) ≡ some (n, cs)
  unfolding read_size
  read_size-line k n s cs l =
      ap (read_size base 0) (sym (write_digits-append k n s [] (13 ∷ cs)))
      ∙ read_size-write_digits k n s (13 ∷ cs) l

pub read_size-standard :
    (n : ℕ) (s : Sum) (cs : List ℕ)
    → n < 2 ^ 16
    → read_size 10 0 ((length_digits header_standard n s).0 ++ (13 ∷ cs)) ≡ some (n, cs)
unfolding length_digits
read_size-standard n s cs l =
    read_size-line 10 decimal_char decimal-Digits 6 n (checksum_add (add16 s 0x1871) 0) cs
      (omega arith)

pub read_size-chunks :
    (n : ℕ) (s : Sum) (cs : List ℕ)
    → n < 2 ^ 16
    → read_size 16 0 ((length_digits header_chunks n s).0 ++ (13 ∷ cs)) ≡ some (n, cs)
unfolding length_digits
read_size-chunks n s cs l =
    read_size-line 16 hex_char hex-Digits 4 n (checksum_add (add16 s 0x2876) 0) cs (omega arith)

pub read_size-none :
    (n : ℕ) (s : Sum) (cs : List ℕ)
    → n < 2 ^ 16
    → read_size 16 0 ((length_digits header_none n s).0 ++ (13 ∷ cs)) ≡ some (n, cs)
unfolding length_digits
read_size-none n s cs l =
    read_size-line 16 hex_char hex-Digits 4 n (checksum_add s 0) cs (omega arith)
