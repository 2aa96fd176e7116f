-- ===== src/Checksum/Tests.antt =====
-- The checksum of an IPv4 header, and the theorem on it.
use smews.Base.{◌≡◌, true, false, refl, arith, List, [], ◌∷◌, some}
use smews.Checksum.{checksum_init, checksum_add, checksum_add16, checksum_add32, checksum_end}
use smews.Checksum.Ones.{Item, byte, pair, quad, feed_all, EndsWith, preset, checksum_end-ones_sum}

-- 192.168.1.4 to 10.0.0.1, 44 bytes behind the fixed words 0x4500, 0, 0 and 0x4006
abbrev header : List Item
header = quad 192 168 1 4 ∷ pair 44 ∷ quad 10 0 0 1 ∷ []

abbrev odd : List Item
odd = byte 0xff ∷ byte 0xff ∷ byte 0xff ∷ []

header_sum :
    checksum_end 4 (feed_all (preset 0x8506) header)
    ≡ some (record { high = 0x50; low = 0xe0; carry = 0; flip = true })
unfolding checksum_end checksum_add16 checksum_add32
header_sum = refl

odd_sum :
    checksum_end 4 (feed_all checksum_init odd)
    ≡ some (record { high = 0xff; low = 0; carry = 0; flip = false })
unfolding checksum_end checksum_init checksum_add
odd_sum = refl

checksum_end-ones_sum_example : EndsWith 4 (feed_all (preset 0x8506) header) 0x50e0
checksum_end-ones_sum_example =
    checksum_end-ones_sum 4 0x8506 header (omega arith) (omega arith) (ground arith)
