-- ===== src/Send/Generator/Comet.antt =====
-- The connections that share a comet handler.
use mathlib.Core.Path.{subst}
use smews.Base.{
  ℕ, ◌≡◌, refl, sym, ap, ap₂, ◌∙◌, Bool, true, false, ◌&&◌, Option, List, [], ◌∷◌, ◌++◌, map,
  if◌then◌else◌, Bool-cases, inl, inr,
}
use smews.Handlers.{OutputHandler}
use smews.Connections.{Connection, is_gpip, something_to_send}
use smews.Generators.{is_handler}
use smews.Send.Packet.{CurrOutput}
use smews.Send.Select.{able_to_send}
use smews.Send.Generator.{Site, set_passive, share_comet}
use smews.Send.Generator.Finish.{Sent, send_comet, send_all}

-- the connections of the handler are connections of HTTP
abbrev pub AllHttp : OutputHandler → List Connection → Type 0
AllHttp handler [] = Unit {0}
AllHttp handler (c ∷ cs) =
    ((is_handler handler c.output_handler && is_gpip c) ≡ false) × AllHttp handler cs

module _ (nbits now local_ip : ℕ) (out : CurrOutput) (ended : Bool) (handler : OutputHandler) where
  send_comet-unable :
      (c : Connection)
      → (is_handler handler c.output_handler && able_to_send c) ≡ false
      → send_comet nbits now local_ip out ended handler c ≡ ([], c)
  unfolding send_comet
  send_comet-unable c e = rw (send_comet, e) refl

  passive-unable :
      (c : Connection)
      → is_gpip c ≡ false
      → able_to_send (record c { http = record c.http { comet_passive = true } }) ≡ false
  unfolding able_to_send is_gpip
  passive-unable c e =
      elim (Bool-cases
        (something_to_send (record c { http = record c.http { comet_passive = true } }))) [
          | inl s ↦ rw (s, e) refl
          | inr s ↦ rw s refl
        ]

  abbrev passive_of : Connection → Connection
  passive_of c = record c { http = record c.http { comet_passive = true } }

  choose-passive :
      (c : Connection) (b : Bool)
      → is_handler handler c.output_handler ≡ b
      → set_passive handler true c ≡ (if b then passive_of c else c)
  unfolding set_passive
  choose-passive c b e = ap (λ k. if k then passive_of c else c) e

  Unsent : Connection → Type 0
  Unsent c = send_comet nbits now local_ip out ended handler c ≡ ([], c)

  send_comet-passive :
      (c : Connection)
      → (is_handler handler c.output_handler && is_gpip c) ≡ false
      → Unsent (set_passive handler true c)
  unfolding Unsent
  send_comet-passive c e = elim (Bool-cases (is_handler handler c.output_handler)) [
    | inl h ↦ subst Unsent (sym (choose-passive c true h)) (
        send_comet-unable (passive_of c) (
          ap (λ k. is_handler handler c.output_handler && k)
            (passive-unable c (sym (ap (λ k. k && is_gpip c) h) ∙ e))
          ∙ and-false (is_handler handler c.output_handler)))
    | inr h ↦
        subst Unsent (sym (choose-passive c false h))
          (send_comet-unable c (ap (λ k. k && able_to_send c) h))
  ]
    where
      and-false : (b : Bool) → (b && false) ≡ false
      and-false true = refl
      and-false false = refl

  send_all-passive :
      (cs : List Connection)
      → AllHttp handler cs
      → send_all nbits now local_ip out ended handler (map (set_passive handler true) cs)
        ≡ ([], map (set_passive handler true) cs)
  unfolding send_all Unsent
  send_all-passive [] all = refl
  send_all-passive (c ∷ cs) all =
      ap₂ (λ (x : Sent) (y : List (Option (List ℕ)) × List Connection). (x.0 ++ y.0, x.1 ∷ y.1))
        (send_comet-passive c all.0) (send_all-passive cs all.1)

  -- Once the service of a comet handler is made, the loop that sends a segment to all listening clients
  -- sends it to none but the active one, and leaves the others as they are.
  pub send_all-share_comet :
      (s : Site)
      → handler.handler_comet ≡ true
      → AllHttp handler s.others
      → send_all nbits now local_ip out ended handler (share_comet handler s).others
        ≡ ([], (share_comet handler s).others)
  unfolding share_comet send_all
  send_all-share_comet s comet all = rw comet (send_all-passive s.others all)
