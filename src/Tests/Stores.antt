-- ===== src/Tests/Stores.antt =====
-- Writes to two regions that meet.
use win_vpwn.Base.{[], ◌∷◌, ◌≡◌, refl, arith, ok}
use win_vpwn.Vkernel.Guest
use win_vpwn.Vkernel.Guest.{read}
use win_vpwn.Vkernel.Guest.Pokes.{pokes}
use win_vpwn.Vkernel.Guest.Laid.{peek}
use win_vpwn.Vkernel.Guest.Stores.{seen, write-pokes, read-write}
use win_vpwn.Tests.Images.{guest, guest-IsLaid}

-- A write that runs past the mapped bytes.
write-pokes_example :
    seen (Guest.write guest 0x1002 (9 ∷ 9 ∷ 9 ∷ 9 ∷ []))
    ≡ pokes (peek guest) 0x1002 (9 ∷ 9 ∷ 9 ∷ 9 ∷ [])
write-pokes_example = write-pokes guest 0x1002 (9 ∷ 9 ∷ 9 ∷ 9 ∷ []) guest-IsLaid

-- A write over both regions.
writes_over : (Guest.write guest 0x1002 (9 ∷ 8 ∷ [])).0 ≡ ok tt
unfolding Guest.write Guest.region
writes_over = refl

read-write_example : read (Guest.write guest 0x1002 (9 ∷ 8 ∷ [])).1 0x1002 2 ≡ ok (9 ∷ 8 ∷ [])
read-write_example =
    read-write guest 0x1002 (9 ∷ 8 ∷ []) guest-IsLaid (omega arith) (omega arith) writes_over
