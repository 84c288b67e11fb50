-- ===== src/Crc16/Examples.antt =====
-- The check value that the comment of src/crc16.c names, and small texts.
use extlib.Common.{◌≡◌, ◌≢◌, ◌<◌, refl, [], ◌∷◌, arith}
use extlib.Text.{codes}
use extlib.Crc16.{round, crc16_crc, crc16}
use extlib.Crc16.Reference.{xmodem}
use extlib.Crc16.Laws.{crc16_crc-xmodem, crc16-notices}

check_value : crc16 (codes "123456789") ≡ 0x31c3
unfolding crc16 crc16_crc round
check_value = refl

crc16_crc-xmodem_example :
    (crc16_crc 7 (49 ∷ 50 ∷ []) ≡ xmodem 7 (49 ∷ 50 ∷ [])) × (crc16_crc 7 (49 ∷ 50 ∷ []) < 65536)
crc16_crc-xmodem_example =
    crc16_crc-xmodem 7 (49 ∷ 50 ∷ []) (omega arith) (omega arith, (omega arith, tt))

crc16-notices_example : crc16 (49 ∷ 50 ∷ []) ≢ crc16 (49 ∷ 51 ∷ [])
crc16-notices_example =
    crc16-notices (49 ∷ []) 50 51 [] (omega arith, tt) (omega arith) (omega arith) tt (omega arith)
