-- ===== src/Receive/Request/Walk.antt =====
-- The walk through a tree as tools/GenBlob.py writes it, along a word of the request.
use mathlib.Core.Path.{subst}
use smews.Base.{
  ℕ, suc, ◌+◌, ◌≡◌, ◌⊎◌, refl, sym, arith, ap, ◌∙◌, true, false, ◌&&◌, ◌||◌, Option, none, some,
  List, [], ◌∷◌, ◌++◌, length, length-append, Bool-cases, inl, inr,
}
use smews.Connections.{parsing_url}
use smews.Receive.Tree.{match_char}
use smews.Receive.Tree.Ternary.{Ternary, leaf, node, has, encode}
use smews.Receive.Tree.Ternary.Walk.{behind_ref}
use smews.Receive.Tree.Ternary.Child.{at_node, child, IsBlob, match_char-child, ref-leb}
use smews.Receive.Tree.Ternary.Position.{
  blob_at, or-split, resource_from-leaf, none-leaf, final-none, read-encode, behind_ref-open,
  IsPlain, plain-split,
}
use smews.Receive.Tree.Ternary.Lookup.{
  find, ref_of, eq_of, resource_from, is_final, IsOpen, find-IsBlob, find-IsOpen, child_of,
  child-find, depth-le,
}
use smews.Receive.Request.{
  Site, Parse, go_on, stop, fall, is_404, at_resource, tree_char, other_char, behind_resource,
  parse_char, parsed, parse_chars,
}

module _ (site : Site) (fuel : ℕ) (p : Parse) (found : is_404 site p.output_handler ≡ false) where
  pub parse_chars-go_on :
      (c : ℕ) (cs : List ℕ) (q : Parse)
      → parse_char site fuel c p ≡ some (go_on q)
      → parse_chars site fuel (c ∷ cs) p ≡ parse_chars site fuel cs q
  unfolding parse_chars
  parse_chars-go_on c cs q e = rw (e, found) refl

  pub parse_chars-stop :
      (c : ℕ) (cs : List ℕ) (q : Parse)
      → parse_char site fuel c p ≡ some (stop q)
      → parse_chars site fuel (c ∷ cs) p ≡ some (parsed q cs)
  unfolding parse_chars
  parse_chars-stop c cs q e = rw (e, found) refl

module _ (site : Site) (fuel : ℕ) (p : Parse) where
  -- The characters of a word, from a position with the resource `r` and the characters `eq`: where a word may end
  -- already, the character is plain and belongs to a URL.
  abbrev pub IsWalked : List ℕ → Option ℕ → Ternary → Type 0
  IsWalked [] r eq = Unit {0}
  IsWalked (c ∷ cs) r eq =
      ((is_final r ≡ false) ⊎ (IsPlain c × (p.http.parsing_state ≡ parsing_url)))
      × IsWalked cs (ref_of (find c eq)) (eq_of (find c eq))

  module _ (no_arg : p.http.arg_ref_index ≡ 128) where
    other_char-tree :
        (c : ℕ) (blob : List ℕ)
        → other_char site c (record p { blob = blob }) ≡ tree_char site c (record p { blob = blob })
    unfolding other_char
    other_char-tree c blob = rw no_arg refl

    at_resource-plain :
        (c k : ℕ) (w : List ℕ)
        → p.http.parsing_state ≡ parsing_url
        → IsPlain c
        → at_resource site fuel (128 + k) c (record p { blob = (128 + k) ∷ w })
          ≡ some (fall (record p { blob = w }))
    unfolding at_resource
    at_resource-plain c k w url plain =
        let (a, b, d, e) = plain-split c plain in rw (url, a, b, d, e) refl

    -- A character goes on in the tree, in front of a resource or behind it.
    pub parse_char-tree :
        (c : ℕ) (r : Option ℕ) (inf eq sup : Ternary) (rest : List ℕ)
        → (is_final r ≡ false) ⊎ (IsPlain c × (p.http.parsing_state ≡ parsing_url))
        → IsBlob eq
        → has eq ≡ true
        → (is_final r && has eq && (has inf || has sup)) ≡ false
        → parse_char site fuel c (record p { blob = blob_at r inf eq sup rest })
          ≡ tree_char site c (record p { blob = encode eq ++ (encode sup ++ rest) })
    unfolding parse_char behind_resource
    parse_char-tree c none inf eq sup rest ok b h o =
        rw (read-encode eq (encode sup ++ rest) b h)
          (other_char-tree c (encode eq ++ (encode sup ++ rest)))
    parse_char-tree c (some k) inf eq sup rest (inl final) b h o = cc
    parse_char-tree c (some k) inf eq sup rest (inr (plain, url)) b h o =
        rw (ref-leb k, at_resource-plain c k (behind_ref inf eq sup rest) url plain)
          (other_char-tree c (behind_ref inf eq sup rest)
            ∙ ap (λ w. tree_char site c (record p { blob = w }))
                (behind_ref-open inf eq sup rest h o))

    match_char-find :
        (c : ℕ) (t : Ternary) (rest : List ℕ)
        → IsBlob t
        → has t ≡ true
        → match_char (suc (length (encode t ++ rest))) c (encode t ++ rest) ≡ some (child c t rest)
    match_char-find c t rest b h =
        match_char-child (suc (length (encode t ++ rest))) c t rest h b
          (omega (arith, depth-le t, length-append (encode t) rest))

    -- The walk for a character reaches the node that is found.
    pub tree_char-find :
        (c : ℕ) (t : Ternary) (rest : List ℕ) (r : Option ℕ) (d : ℕ) (inf eq sup : Ternary)
        → IsBlob t
        → has t ≡ true
        → find c t ≡ node d r inf eq sup
        → (is_final r || has eq) ≡ true
        → (rest' : List ℕ) × (tree_char site c (record p { blob = encode t ++ rest })
            ≡ some (go_on (record p { blob = blob_at r inf eq sup rest' })))
    unfolding tree_char
    tree_char-find c t rest r d inf eq sup b h found more =
        let (rest', at) = child-find c t rest in
        (rest', rw (tree_char, match_char-find c t rest b h, at, found, reached r rest' more) refl)
      where
        reached :
            (r : Option ℕ) (rest' : List ℕ)
            → (is_final r || has eq) ≡ true
            → at_node r inf eq sup rest' ≡ some (blob_at r inf eq sup rest')
        reached none rest' m = rw m refl
        reached (some k) rest' m = refl

    -- or error 404
    pub tree_char-missing :
        (c : ℕ) (t : Ternary) (rest : List ℕ)
        → IsBlob t
        → has t ≡ true
        → (is_final (ref_of (find c t)) || has (eq_of (find c t))) ≡ false
        → tree_char site c (record p { blob = encode t ++ rest })
          ≡ some (
              go_on
                (record p { blob = encode t ++ rest; output_handler = some site.http_404_handler }))
    unfolding tree_char
    tree_char-missing c t rest b h missing =
        let (rest', at) = child-find c t rest in
        rw (tree_char, match_char-find c t rest b h, at, dead (find c t) rest' missing) refl
      where
        dead :
            (t : Ternary) (rest : List ℕ)
            → (is_final (ref_of t) || has (eq_of t)) ≡ false
            → child_of t rest ≡ none
        dead leaf rest m = refl
        dead (node d none inf eq sup) rest m = rw m refl
        dead (node d (some k) inf eq sup) rest m = cc

    module _ (found : is_404 site p.output_handler ≡ false) where
      -- Along a word with a resource, the walk gets to the byte of that resource.
      pub parse_chars-word :
          (word : List ℕ) (k : ℕ) (more : List ℕ) (r : Option ℕ) (inf eq sup : Ternary)
          (rest : List ℕ)
          → IsWalked word r eq
          → IsBlob eq
          → IsOpen eq
          → (is_final r && has eq && (has inf || has sup)) ≡ false
          → resource_from word r eq ≡ some k
          → (w : List ℕ) × (parse_chars site fuel
                (word ++ more)
                (record p { blob = blob_at r inf eq sup rest })
              ≡ parse_chars site fuel more (record p { blob = (128 + k) ∷ w }))
      parse_chars-word [] k more none inf eq sup rest ok b o split e = cc
      parse_chars-word [] k more (some j) inf eq sup rest ok b o split e = (
        behind_ref inf eq sup rest,
        ap
            (λ i.
              parse_chars site fuel more
                (record p { blob = (128 + i) ∷ behind_ref inf eq sup rest }))
            (same j k e),
      )
        where
          same : (j k : ℕ) → some j ≡ some k → j ≡ k
          same j k e = cc
      parse_chars-word (c ∷ cs) k more r inf eq sup rest ok b o split e =
          elim (Bool-cases (has eq)) [
            | inl h ↦
                go h (find c eq) refl
                  (λ r' inf' eq' sup' rest'. parse_chars-word cs k more r' inf' eq' sup' rest')
            | inr h ↦ cc (
              ap (λ t. resource_from cs (ref_of (find c t)) (eq_of (find c t))) (none-leaf eq h),
              resource_from-leaf cs,
            )
          ]
        where
          go :
              (h : has eq ≡ true) (t : Ternary)
              → find c eq ≡ t
              → ((r' : Option ℕ) (inf' eq' sup' : Ternary) (rest' : List ℕ)
                  → IsWalked cs r' eq'
                  → IsBlob eq'
                  → IsOpen eq'
                  → (is_final r' && has eq' && (has inf' || has sup')) ≡ false
                  → resource_from cs r' eq' ≡ some k
                  → (w : List ℕ) × (parse_chars site fuel
                        (cs ++ more)
                        (record p { blob = blob_at r' inf' eq' sup' rest' })
                      ≡ parse_chars site fuel more (record p { blob = (128 + k) ∷ w })))
              → (w : List ℕ) × (parse_chars site fuel
                    (c ∷ cs ++ more)
                    (record p { blob = blob_at r inf eq sup rest })
                  ≡ parse_chars site fuel more (record p { blob = (128 + k) ∷ w }))
          go h leaf f next =
              cc (ap (λ t. resource_from cs (ref_of t) (eq_of t)) f, resource_from-leaf cs)
          go h (node d r' inf' eq' sup') f next =
              let same = ap (λ t. resource_from cs (ref_of t) (eq_of t)) f in
              elim (Bool-cases (is_final r' || has eq')) [
                | inl m ↦
                    (let (rest', tree) =
                        tree_char-find c eq (encode sup ++ rest) r' d inf' eq' sup' b h f m in
                      let ok' : IsWalked cs r' eq' =
                        subst (λ t. IsWalked cs (ref_of t) (eq_of t)) f ok.1 in
                      let b' : IsBlob (node d r' inf' eq' sup') =
                        subst IsBlob f (find-IsBlob c eq b) in
                      let o' : IsOpen (node d r' inf' eq' sup') =
                        subst IsOpen f (find-IsOpen c eq o) in
                      let (w, walk) =
                        next r' inf' eq' sup' rest' ok' b'.4 o'.2 o'.0 (sym same ∙ e) in
                      (
                        w,
                        parse_chars-go_on site fuel (record p { blob = blob_at r inf eq sup rest })
                              found c (cs ++ more) _
                              (parse_char-tree c r inf eq sup rest ok.0 b h split ∙ tree)
                            ∙ walk,
                      ))
                | inr m ↦ cc (
                  final-none r' (has eq') m,
                  none-leaf eq' (or-split (is_final r') (has eq') m).1,
                  resource_from-leaf cs,
                )
              ]
