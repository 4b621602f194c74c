-- ===== src/Tests/Orders.antt =====
-- Claims and trace records in different orders.
use mathlib.Core.List.Perm
use win_vpwn.Base.{pos, List, [], ◌∷◌, ◌++◌, codes, ◌≡◌, refl, ok, arith, map, All}
use win_vpwn.Memory
use win_vpwn.Memory.{Region, empty_map}
use win_vpwn.Memory.Order.{EndsBelowTop, claim_all, claim_all-perm}
use win_vpwn.Trace.{Args, SyscallOutcome}
use win_vpwn.Trace.Histories.{
  Use, push, take_all, history, unnumbered, pushed, collected, history_conserves,
}
use win_vpwn.Tests.Guest.{no_records}

abbrev code : Region
code = record { base = 0x400000; size = 0x1000; prot = 5 }

abbrev stack : Region
stack = record { base = 0x7000; size = 0x2000; prot = 3 }

both_low : All EndsBelowTop (code ∷ stack ∷ [])
both_low = (omega arith, (omega arith, tt))

both_claimed : (claim_all (code ∷ stack ∷ []) empty_map).0 ≡ ok tt
unfolding claim_all Memory.insert
both_claimed = refl

claim_all-perm_example :
    claim_all (stack ∷ code ∷ []) empty_map ≡ claim_all (code ∷ stack ∷ []) empty_map
claim_all-perm_example =
    claim_all-perm (code ∷ stack ∷ []) (stack ∷ code ∷ []) empty_map (Perm.swap stack code []) tt
      both_low both_claimed

abbrev no_args : Args
no_args = (0, 0, 0, 0, 0, 0)

-- Two pushes around a drain, with another sink in between.
abbrev uses : List Use
uses =
    push 0 (codes "write") (pos 1) no_args 0x400000 (SyscallOutcome.return (pos 2))
    ∷ push 1 (codes "exit") (pos 60) no_args 0x400002 (SyscallOutcome.return (pos 0))
    ∷ take_all 0
    ∷ push 0 (codes "write") (pos 1) no_args 0x400004 (SyscallOutcome.return (pos 3))
    ∷ []

history_conserves_example :
    map unnumbered (collected 0 (history 0 uses no_records))
    ≡ map unnumbered (no_records 0) ++ pushed 0 uses
history_conserves_example = history_conserves 0 uses no_records
