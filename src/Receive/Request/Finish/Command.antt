-- ===== src/Receive/Request/Finish/Command.antt =====
-- The command in front of the URL, with the trees that tools/GenBlob.py writes.
use smews.Base.{
  ℕ, ◌+◌, ◌≡◌, refl, ap, ◌∙◌, true, false, Option, none, some, List, [], ◌∷◌, ◌++◌, leb, inl,
}
use smews.Connections.{parsing_cmd, parsing_url}
use smews.Receive.Tree.{read}
use smews.Receive.Tree.Ternary.{Ternary, leaf, has, encode}
use smews.Receive.Tree.Ternary.Child.{IsBlob, ref-leb}
use smews.Receive.Tree.Ternary.Position.{read-encode}
use smews.Receive.Tree.Ternary.Lookup.{find, ref_of, eq_of, resource, is_final, IsOpen}
use smews.Receive.Request.Walk.{IsWalked, parse_chars-word}
use smews.Receive.Request.{
  Site, Parse, fall, is_404, at_resource, other_char, behind_resource, parse_char, parse_chars,
}
use smews.Receive.Request.Finish.{no_arg}

-- No beginning of the word is a word of the tree.
abbrev pub IsFirst : List ℕ → Option ℕ → Ternary → Type 0
IsFirst [] r eq = Unit {0}
IsFirst (c ∷ cs) r eq = (is_final r ≡ false) × IsFirst cs (ref_of (find c eq)) (eq_of (find c eq))

module _ (site : Site) (fuel : ℕ) (p : Parse) (found : is_404 site p.output_handler ≡ false) where
  first-IsWalked :
      (word : List ℕ) (r : Option ℕ) (eq : Ternary)
      → IsFirst word r eq
      → IsWalked site fuel p word r eq
  first-IsWalked [] r eq f = tt
  first-IsWalked (c ∷ cs) r eq f =
      (inl f.0, first-IsWalked cs (ref_of (find c eq)) (eq_of (find c eq)) f.1)

  -- behind the command
  abbrev pub at_url : Parse
  at_url = record p { http = record p.http { parsing_state = parsing_url }; blob = site.urls_tree }

  at_resource-cmd :
      (c j : ℕ) (w : List ℕ)
      → p.http.parsing_state ≡ parsing_cmd
      → at_resource site fuel (128 + j) c (record p { blob = (128 + j) ∷ w }) ≡ some (fall at_url)
  unfolding at_resource
  at_resource-cmd c j w cmd = rw cmd refl

  parse_char-cmd :
      (c j : ℕ) (w : List ℕ)
      → p.http.parsing_state ≡ parsing_cmd
      → parse_char site fuel c (record p { blob = (128 + j) ∷ w }) ≡ other_char site c at_url
  unfolding parse_char behind_resource
  parse_char-cmd c j w cmd = rw (ref-leb j, at_resource-cmd c j w cmd) refl

  parse_char-url :
      (c : ℕ)
      → leb 128 (read site.urls_tree 0) ≡ false
      → parse_char site fuel c at_url ≡ other_char site c at_url
  unfolding parse_char
  parse_char-url c head = rw head refl

  pub parse_chars-cmd_end :
      (c j : ℕ) (cs w : List ℕ)
      → p.http.parsing_state ≡ parsing_cmd
      → leb 128 (read site.urls_tree 0) ≡ false
      → parse_chars site fuel (c ∷ cs) (record p { blob = (128 + j) ∷ w })
        ≡ parse_chars site fuel (c ∷ cs) at_url
  unfolding parse_chars
  parse_chars-cmd_end c j cs w cmd head = rw (before, after, found) refl
    where
      before : parse_char site fuel c (record p { blob = (128 + j) ∷ w }) ≡ other_char site c at_url
      before = parse_char-cmd c j w cmd

      after : parse_char site fuel c at_url ≡ other_char site c at_url
      after = parse_char-url c head

  -- The command of the request leads to the tree of URLs.
  pub parse_chars-cmd :
      (t : Ternary) (cmd : List ℕ) (j c : ℕ) (cs rest : List ℕ)
      → p.http.arg_ref_index ≡ 128
      → p.http.parsing_state ≡ parsing_cmd
      → IsBlob t
      → IsOpen t
      → IsFirst cmd none t
      → resource cmd t ≡ some j
      → leb 128 (read site.urls_tree 0) ≡ false
      → p.blob ≡ encode t ++ rest
      → parse_chars site fuel (cmd ++ (c ∷ cs)) p ≡ parse_chars site fuel (c ∷ cs) at_url
  unfolding encode
  parse_chars-cmd t cmd j c cs rest no_arg state b o first e head blob =
      let (w, walk) =
        parse_chars-word site fuel p no_arg found cmd j (c ∷ cs) none leaf t leaf rest
          (first-IsWalked cmd none t first) b o refl e in
      ap (λ v. parse_chars site fuel (cmd ++ (c ∷ cs)) (record p { blob = v })) blob
      ∙ walk
      ∙ parse_chars-cmd_end c j cs w state head

-- the trees that tools/GenBlob.py writes for the commands and for the URLs, with what lies behind them
pub record HasTrees (site : Site) (commands urls : Ternary) : Type 0 where
  pub behind_commands : List ℕ
  pub behind_urls : List ℕ
  pub blob_http_rqt : site.blob_http_rqt ≡ encode commands ++ behind_commands
  pub urls_tree : site.urls_tree ≡ encode urls ++ behind_urls
  pub commands_blob : IsBlob commands
  pub commands_open : IsOpen commands
  pub urls_blob : IsBlob urls
  pub urls_open : IsOpen urls
  pub some_url : has urls ≡ true

pub urls-head :
    (site : Site) (commands urls : Ternary)
    → HasTrees site commands urls
    → leb 128 (read site.urls_tree 0) ≡ false
urls-head site commands urls trees =
    ap (λ v. leb 128 (read v 0)) trees.urls_tree
    ∙ read-encode urls trees.behind_urls trees.urls_blob trees.some_url
