-- ===== src/Cpu/Run/AccessFaults.antt =====
-- The faults of the engine that `Vcpu::run` takes for a fall off the image.
use win_vpwn.Base.{Text, codes, ◌++◌, true, ◌≡◌, ◌↔◌, inl, inr, Bool-cases, arith}
use win_vpwn.Base.Substrings.{contains_text_iff}
use win_vpwn.Base.{contains_text}
use win_vpwn.Cpu.Run.{is_falloff}

-- A read or a fetch that the permissions of mapped memory forbid, or a read, a fetch or a write of
-- memory that is not mapped.
pub data AccessFault : Type 0 where
  read_protect : AccessFault
  fetch_protect : AccessFault
  read_unmapped : AccessFault
  fetch_unmapped : AccessFault
  write_unmapped : AccessFault

abbrev pub fault_name : AccessFault → Text
fault_name read_protect = codes "READ_PROTECT"
fault_name fetch_protect = codes "FETCH_PROTECT"
fault_name read_unmapped = codes "READ_UNMAPPED"
fault_name fetch_unmapped = codes "FETCH_UNMAPPED"
fault_name write_unmapped = codes "WRITE_UNMAPPED"

-- The text has the name of such a fault somewhere in it.
unfoldable pub NamesFault : Text → Type 0
NamesFault msg =
    (fault : AccessFault) × (before : Text) × (after : Text) × (msg
      ≡ before ++ (fault_name fault ++ after))

names :
    (fault : AccessFault) (msg : Text)
    → contains_text (fault_name fault) msg ≡ true
    → NamesFault msg
unfolding NamesFault
names fault msg h =
    let (before, after, same) = (contains_text_iff (fault_name fault) msg).0 h in
    (fault, before, after, same)

finds :
    (fault : AccessFault) (msg : Text)
    → contains_text (fault_name fault) msg ≡ true
    → is_falloff msg ≡ true
finds read_protect msg h = ground (arith, h)
finds fetch_protect msg h = ground (arith, h)
finds read_unmapped msg h = ground (arith, h)
finds fetch_unmapped msg h = ground (arith, h)
finds write_unmapped msg h = ground (arith, h)

is_falloff-names : (msg : Text) → is_falloff msg ≡ true → NamesFault msg
is_falloff-names msg h = elim (Bool-cases (contains_text (codes "READ_PROTECT") msg)) [
  | inl found ↦ names read_protect msg found
  | inr n1 ↦ elim (Bool-cases (contains_text (codes "FETCH_PROTECT") msg)) [
    | inl found ↦ names fetch_protect msg found
    | inr n2 ↦ elim (Bool-cases (contains_text (codes "READ_UNMAPPED") msg)) [
      | inl found ↦ names read_unmapped msg found
      | inr n3 ↦ elim (Bool-cases (contains_text (codes "FETCH_UNMAPPED") msg)) [
        | inl found ↦ names fetch_unmapped msg found
        | inr n4 ↦ names write_unmapped msg (rw (n1, n2, n3, n4) at h)
      ]
    ]
  ]
]

pub is_falloff_iff : (msg : Text) → (is_falloff msg ≡ true) ↔ NamesFault msg
unfolding NamesFault
is_falloff_iff msg = (
  is_falloff-names msg,
  λ (fault, before, after, same).
      finds fault msg ((contains_text_iff (fault_name fault) msg).1 (before, after, same)),
)
