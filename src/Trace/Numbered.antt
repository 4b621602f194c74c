-- ===== src/Trace/Numbered.antt =====
-- The sequence numbers of a buffer.
use win_vpwn.Base.{
  ℕ, ℤ, suc, ◌+◌, ◌<◌, ◌^◌, ◌%◌, List, [], ◌∷◌, ◌++◌, Text, ◌≡◌, refl, arith, length, ◌==◌,
  Bool-cases, inl, inr, ==_iff,
}
use win_vpwn.Trace.{
  SyscallOutcome, Args, TraceRecord, TraceSink, Buffers, push_record, drain, traced_ret,
}

-- The records are numbered from `n` on.
abbrev pub IsNumberedFrom : ℕ → List TraceRecord → Type 0
IsNumberedFrom n [] = Unit
IsNumberedFrom n (r ∷ rs) = (r.seq ≡ n) × IsNumberedFrom (suc n) rs

abbrev pub IsNumbered : Buffers → Type 0
IsNumbered bufs = (sink : TraceSink) → IsNumberedFrom 0 (bufs sink)

pub IsNumberedFrom-append :
    (n : ℕ) (rs : List TraceRecord) (r : TraceRecord)
    → IsNumberedFrom n rs
    → r.seq ≡ n + length rs
    → IsNumberedFrom n (rs ++ r ∷ [])
IsNumberedFrom-append n [] r h e = (omega (arith, e), tt)
IsNumberedFrom-append n (x ∷ rs) r h e =
    (h.0, IsNumberedFrom-append (suc n) rs r h.1 (omega (arith, e)))

-- A record that is pushed keeps every buffer numbered from 0, as long as the number fits a `u64`.
pub push_record-IsNumbered :
    (bufs : Buffers) (sink : TraceSink) (name : Text) (nr : ℤ) (args : Args) (rip : ℕ)
    (outcome : SyscallOutcome)
    → IsNumbered bufs
    → length (bufs sink) < 2 ^ 64
    → IsNumbered (push_record bufs sink name nr args rip outcome)
unfolding push_record
push_record-IsNumbered bufs sink name nr args rip outcome h fits other =
    elim (Bool-cases (other == sink)) [
      | inl same ↦ rw same (IsNumberedFrom-append 0 (bufs sink) _ (h sink) (omega arith))
      | inr different ↦ rw different (h other)
    ]

-- Draining empties one buffer: the numbering starts at 0 again.
pub drain-IsNumbered :
    (bufs : Buffers) (sink : TraceSink) → IsNumbered bufs → IsNumbered (drain bufs sink).1
unfolding drain
drain-IsNumbered bufs sink h other = elim (Bool-cases (other == sink)) [
  | inl same ↦ rw same tt
  | inr different ↦ rw different (h other)
]

-- A drain returns what was recorded: after a record is pushed, the old records and that one.
pub drain-push_record :
    (bufs : Buffers) (sink : TraceSink) (name : Text) (nr : ℤ) (args : Args) (rip : ℕ)
    (outcome : SyscallOutcome)
    → (drain (push_record bufs sink name nr args rip outcome) sink).0
      ≡ bufs sink
        ++ record {
          seq = length (bufs sink) % 2 ^ 64;
          nr = nr;
          name = name;
          args = args;
          ret = traced_ret outcome;
          rip = rip;
        }
          ∷ []
unfolding drain push_record
drain-push_record bufs sink name nr args rip outcome = rw ((==_iff sink sink).1 refl)
