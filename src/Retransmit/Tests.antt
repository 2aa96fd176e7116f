-- ===== src/Retransmit/Tests.antt =====
-- A connection whose stamp is too late, and the theorem on it.
use smews.Base.{◌≡◌, arith, [], ◌∷◌}
use smews.Connections.{Connection}
use smews.Connections.Samples.{http, client}
use smews.Retransmit.{smews_retransmit}
use smews.Retransmit.Laws.{smews_retransmit-wrap}

abbrev stamped : Connection
stamped = record client { http = record http { transmission_time = 252 } }

smews_retransmit-wrap_example : (smews_retransmit 40 (stamped ∷ [])).1 ≡ stamped ∷ []
smews_retransmit-wrap_example = smews_retransmit-wrap 40 (stamped ∷ []) (omega arith)
