-- ===== src/Receive/Request/Url.antt =====
-- The URL of a request, and the handler that it selects.
use mathlib.Core.Path.{subst}
use smews.Base.{
  ℕ, ◌+◌, ◌≡◌, ◌⊎◌, refl, sym, ap, ◌∙◌, Bool, true, false, not, ◌&&◌, ◌||◌, Option, none, some,
  List, [], ◌∷◌, ◌++◌, Bool-cases, inl, inr, ==_refl,
}
use smews.Connections.{parsing_url, parsing_end}
use smews.Receive.Tree.Ternary.{Ternary, leaf, node, has, encode}
use smews.Receive.Tree.Ternary.Child.{IsBlob, ref-leb}
use smews.Receive.Tree.Ternary.Position.{blob_at, find-leaf, eq_of-IsWithout, IsWithout, IsPlain}
use smews.Receive.Tree.Ternary.Lookup.{
  find, ref_of, eq_of, resource_from, resource, is_final, IsOpen, find-IsBlob, find-IsOpen,
}
use smews.Receive.Request.Walk.{
  IsWalked, parse_char-tree, tree_char-find, tree_char-missing, parse_chars-go_on, parse_chars-stop,
  parse_chars-word,
}
use smews.Receive.Request.{
  Site, Parse, stop, is_404, select_resource, at_resource, behind_resource, parse_char, parsed,
  parse_chars,
}

abbrev pub IsPlainWord : List ℕ → Type 0
IsPlainWord [] = Unit {0}
IsPlainWord (c ∷ cs) = IsPlain c × IsPlainWord cs

-- Where a beginning of the word is a resource, longer words of the tree begin there as well.
abbrev pub IsInside : List ℕ → Option ℕ → Ternary → Type 0
IsInside [] r eq = Unit {0}
IsInside (c ∷ cs) r eq =
    ((is_final r && not (has eq)) ≡ false) × IsInside cs (ref_of (find c eq)) (eq_of (find c eq))

below :
    (r : Option ℕ) (b : Bool) → (is_final r || b) ≡ true → (is_final r && not b) ≡ false → b ≡ true
below none b h h' = h
below (some k) true h h' = refl
below (some k) false h h' = sym h'

module _ (site : Site) (fuel : ℕ) (p : Parse) where
  -- what the space behind a URL leaves
  abbrev pub selected : ℕ → List ℕ → Parse
  selected k w = record p {
    blob = w;
    output_handler = select_resource site (128 + k) p.output_handler;
    http = record p.http { parsing_state = parsing_end };
  }

  -- what an unknown URL leaves
  abbrev pub not_found : List ℕ → Parse
  not_found w = record p { blob = w; output_handler = some site.http_404_handler }

  plain-IsWalked :
      (word : List ℕ) (r : Option ℕ) (eq : Ternary)
      → p.http.parsing_state ≡ parsing_url
      → IsPlainWord word
      → IsWalked site fuel p word r eq
  plain-IsWalked [] r eq url plain = tt
  plain-IsWalked (c ∷ cs) r eq url plain =
      (inr (plain.0, url), plain-IsWalked cs (ref_of (find c eq)) (eq_of (find c eq)) url plain.1)

  at_resource-space :
      (k : ℕ) (w : List ℕ)
      → p.http.parsing_state ≡ parsing_url
      → at_resource site fuel (128 + k) 32 (record p { blob = (128 + k) ∷ w })
        ≡ some (stop (selected k ((128 + k) ∷ w)))
  unfolding at_resource
  at_resource-space k w url = rw url refl

  pub parse_char-space :
      (k : ℕ) (w : List ℕ)
      → p.http.parsing_state ≡ parsing_url
      → parse_char site fuel 32 (record p { blob = (128 + k) ∷ w })
        ≡ some (stop (selected k ((128 + k) ∷ w)))
  unfolding parse_char behind_resource
  parse_char-space k w url = rw (ref-leb k, at_resource-space k w url) refl

  module _ (url : p.http.parsing_state ≡ parsing_url) (no_arg : p.http.arg_ref_index ≡ 128)
      (found : is_404 site p.output_handler ≡ false) where
    -- On a tree as tools/GenBlob.py writes it, with the offsets of its nodes within bytes, where no final
    -- word with longer words below it lies in a node with siblings, a URL of the tree that is followed by a space
    -- selects its resource, unless the connection has a handler already, and ends the parsing behind the space.
    pub parse_chars-resource :
        (t : Ternary) (word : List ℕ) (k : ℕ) (rest more : List ℕ)
        → IsBlob t
        → IsOpen t
        → IsPlainWord word
        → resource word t ≡ some k
        → p.blob ≡ encode t ++ rest
        → (w : List ℕ) × (parse_chars site fuel (word ++ (32 ∷ more)) p
            ≡ some (parsed (selected k w) more))
    unfolding encode
    parse_chars-resource t word k rest more b o plain e blob =
        let (w, walk) =
          parse_chars-word site fuel p no_arg found word k (32 ∷ more) none leaf t leaf rest
            (plain-IsWalked word none t url plain) b o refl e in
        (
          (128 + k) ∷ w,
          ap (λ v. parse_chars site fuel (word ++ (32 ∷ more)) (record p { blob = v })) blob
              ∙ walk
              ∙ parse_chars-stop site fuel (record p { blob = (128 + k) ∷ w }) found 32 more _
                  (parse_char-space k w url),
        )

    parse_chars-404 :
        (cs w : List ℕ) → parse_chars site fuel cs (not_found w) ≡ some (parsed (not_found w) cs)
    unfolding parse_chars is_404
    parse_chars-404 [] w = refl
    parse_chars-404 (c ∷ cs) w = rw (==_refl site.http_404_handler.addr) refl

    -- the outcome for a word that is not in the tree
    abbrev IsUnknown : List ℕ → List ℕ → Type 0
    IsUnknown cs v =
        (w left : List ℕ) × (parse_chars site fuel cs (record p { blob = v })
          ≡ some (parsed (not_found w) left))

    off_tree :
        (c : ℕ) (cs : List ℕ) (r : Option ℕ) (inf eq sup : Ternary) (rest : List ℕ)
        → (is_final r ≡ false) ⊎ (IsPlain c × (p.http.parsing_state ≡ parsing_url))
        → IsBlob eq
        → has eq ≡ true
        → (is_final r && has eq && (has inf || has sup)) ≡ false
        → (is_final (ref_of (find c eq)) || has (eq_of (find c eq))) ≡ false
        → IsUnknown (c ∷ cs) (blob_at r inf eq sup rest)
    off_tree c cs r inf eq sup rest ok b h o missing = (
      encode eq ++ (encode sup ++ rest),
      cs,
      parse_chars-go_on site fuel (record p { blob = blob_at r inf eq sup rest }) found c cs _
            (parse_char-tree site fuel p no_arg c r inf eq sup rest ok b h o
              ∙ tree_char-missing site fuel p no_arg c eq (encode sup ++ rest) b h missing)
          ∙ parse_chars-404 cs (encode eq ++ (encode sup ++ rest)),
    )

    walk_off :
        (word more : List ℕ) (r : Option ℕ) (inf eq sup : Ternary) (rest : List ℕ)
        → IsPlainWord word
        → IsInside word r eq
        → IsBlob eq
        → IsOpen eq
        → IsWithout 32 eq
        → (is_final r || has eq) ≡ true
        → (is_final r && has eq && (has inf || has sup)) ≡ false
        → resource_from word r eq ≡ none
        → IsUnknown (word ++ (32 ∷ more)) (blob_at r inf eq sup rest)
    walk_off [] more none inf eq sup rest plain inside b o s live split e =
        off_tree 32 more none inf eq sup rest (inl refl) b live split
          (ap (λ t. is_final (ref_of t) || has (eq_of t)) (find-leaf 32 eq s))
    walk_off [] more (some k) inf eq sup rest plain inside b o s live split e = cc
    walk_off (c ∷ cs) more r inf eq sup rest plain inside b o s live split e =
        elim (Bool-cases (is_final (ref_of (find c eq)) || has (eq_of (find c eq)))) [
          | inl m ↦
              go (find c eq) refl
                (λ r' inf' eq' sup' rest'. walk_off cs more r' inf' eq' sup' rest' plain.1)
          | inr m ↦
              off_tree c (cs ++ (32 ∷ more)) r inf eq sup rest (inr (plain.0, url)) b h split m
        ]
      where
        h : has eq ≡ true
        h = below r (has eq) live inside.0

        go :
            (t : Ternary)
            → find c eq ≡ t
            → ((r' : Option ℕ) (inf' eq' sup' : Ternary) (rest' : List ℕ)
                → IsInside cs r' eq'
                → IsBlob eq'
                → IsOpen eq'
                → IsWithout 32 eq'
                → (is_final r' || has eq') ≡ true
                → (is_final r' && has eq' && (has inf' || has sup')) ≡ false
                → resource_from cs r' eq' ≡ none
                → IsUnknown (cs ++ (32 ∷ more)) (blob_at r' inf' eq' sup' rest'))
            → IsUnknown (c ∷ cs ++ (32 ∷ more)) (blob_at r inf eq sup rest)
        go leaf f next =
            off_tree c (cs ++ (32 ∷ more)) r inf eq sup rest (inr (plain.0, url)) b h split
              (ap (λ t. is_final (ref_of t) || has (eq_of t)) f)
        go (node d r' inf' eq' sup') f next = elim (Bool-cases (is_final r' || has eq')) [
          | inl m ↦
              (let (rest', tree) =
                  tree_char-find site fuel p no_arg c eq (encode sup ++ rest) r' d inf' eq' sup' b h
                    f m in
                let b' : IsBlob (node d r' inf' eq' sup') = subst IsBlob f (find-IsBlob c eq b) in
                let o' : IsOpen (node d r' inf' eq' sup') = subst IsOpen f (find-IsOpen c eq o) in
                let s' : IsWithout 32 eq' =
                  subst (λ t. IsWithout 32 (eq_of t)) f (eq_of-IsWithout 32 c eq s) in
                let i' : IsInside cs r' eq' =
                  subst (λ t. IsInside cs (ref_of t) (eq_of t)) f inside.1 in
                let e' = sym (ap (λ t. resource_from cs (ref_of t) (eq_of t)) f) ∙ e in
                let (w, left, off) = next r' inf' eq' sup' rest' i' b'.4 o'.2 s' m o'.0 e' in
                (
                  w,
                  left,
                  parse_chars-go_on site fuel (record p { blob = blob_at r inf eq sup rest }) found
                        c (cs ++ (32 ∷ more)) _
                        (parse_char-tree site fuel p no_arg c r inf eq sup rest (inr (plain.0, url))
                            b h split
                          ∙ tree)
                      ∙ off,
                ))
          | inr m ↦
              off_tree c (cs ++ (32 ∷ more)) r inf eq sup rest (inr (plain.0, url)) b h split
                (ap (λ t. is_final (ref_of t) || has (eq_of t)) f ∙ m)
        ]

    -- On such a tree without spaces, a word that is no URL of it, and that goes on behind no URL at which the tree ends, selects
    -- the handler of error 404.
    pub parse_chars-unknown :
        (t : Ternary) (word rest more : List ℕ)
        → IsBlob t
        → IsOpen t
        → has t ≡ true
        → IsWithout 32 t
        → IsPlainWord word
        → IsInside word none t
        → resource word t ≡ none
        → p.blob ≡ encode t ++ rest
        → (w left : List ℕ) × (parse_chars site fuel (word ++ (32 ∷ more)) p
            ≡ some (parsed (not_found w) left))
    unfolding encode
    parse_chars-unknown t word rest more b o h s plain inside e blob =
        let (w, left, off) = walk_off word more none leaf t leaf rest plain inside b o s h refl e in
        (
          w,
          left,
          ap (λ v. parse_chars site fuel (word ++ (32 ∷ more)) (record p { blob = v })) blob ∙ off,
        )
