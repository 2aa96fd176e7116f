-- ===== src/Address/Tests.antt =====
-- Addresses with one run of zero bytes and with two, and the theorem.
use smews.Base.{ℕ, ◌≡◌, refl, arith, List, [], ◌∷◌, replicate}
use smews.Address.{compress_ip, decompress_ip}
use smews.Address.RoundTrip.{decompress_ip-compress_ip}

-- The two runs of 2 zero bytes behind a run of 3 are counted as one of 4, with the byte between them in it.
abbrev two_runs : List ℕ
two_runs = 32 ∷ 0 ∷ 0 ∷ 0 ∷ 1 ∷ 0 ∷ 0 ∷ 2 ∷ 0 ∷ 0 ∷ 3 ∷ 4 ∷ 5 ∷ 6 ∷ 7 ∷ 8 ∷ []

loses_bytes : (compress_ip two_runs).1 ≡ 0x54
unfolding compress_ip
loses_bytes = refl

decompress_ip-compress_ip_example :
    (compress_ip (32 ∷ 1 ∷ 0 ∷ 0 ∷ 0 ∷ 0 ∷ 0 ∷ 0 ∷ 0 ∷ 0 ∷ 0 ∷ 0 ∷ 0 ∷ 0 ∷ 0 ∷ 1 ∷ [])
      ≡ (32 ∷ 1 ∷ 1 ∷ replicate 13 0, 45))
    × (decompress_ip (32 ∷ 1 ∷ 1 ∷ replicate 13 0) 45
        ≡ 32 ∷ 1 ∷ 0 ∷ 0 ∷ 0 ∷ 0 ∷ 0 ∷ 0 ∷ 0 ∷ 0 ∷ 0 ∷ 0 ∷ 0 ∷ 0 ∷ 0 ∷ 1 ∷ [])
decompress_ip-compress_ip_example =
    decompress_ip-compress_ip (32 ∷ 1 ∷ []) 12 1 [] (omega arith) (omega arith) (omega arith)
