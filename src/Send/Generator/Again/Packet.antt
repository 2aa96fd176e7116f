-- ===== src/Send/Generator/Again/Packet.antt =====
-- The packet of a segment that is sent again, from the choice of its connection to the end of the branch.
use smews.Base.{ℕ, ◌≡◌, Bool, true, Option, some, List, [], ◌∷◌}
use smews.Memory.Chain.{Span, Holds}
use smews.Handlers.{OutputHandler}
use smews.Service.{Sizes}
use smews.Send.Generator.{Site}
use smews.Send.Generator.Finish.{send_to}

module _ (fuel nbits now local_ip : ℕ) (z : Sizes) (handler : OutputHandler) (a : ℕ) where
  -- the site once the packet is sent
  abbrev sent : Site → Site
  sent u =
      let (packets, active) = send_to nbits now local_ip u.out handler u.active in
      record u { packets = packets; active = active }

-- what the branch does when it sends a segment again
pub record SentAgain (words : ℕ) (packet : Option (List ℕ)) (bs : List Span)
    (result : Option (Bool × Site)) : Type 0 where
  pub site : Site
  pub returns : result ≡ some (true, site)
  pub packets : site.packets ≡ packet ∷ []
  pub holds : Holds words site.stacks.heap bs
