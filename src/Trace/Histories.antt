-- ===== src/Trace/Histories.antt =====
-- The records of sinks over a whole history: pushes and drains through any clones, in any order.
use win_vpwn.Base.{
  ℕ, ℤ, List, [], ◌∷◌, ◌++◌, map, Bool-cases, inl, inr, Text, ◌≡◌, refl, sym, ap, ◌∙◌, ◌==◌, ==_iff,
  if◌then◌else◌, append-nil, append_assoc,
}
use win_vpwn.Trace.{
  Buffers, TraceSink, TraceRecord, Args, SyscallOutcome, traced_ret, push_record, drain,
}

-- What a holder of a clone does; each holds the mutex from beginning to end.
pub data Use : Type 0 where
  push : TraceSink → Text → ℤ → Args → ℕ → SyscallOutcome → Use
  take_all : TraceSink → Use

-- A history: the batches that were drained from one sink, in order, and the buffers at its end.
unfoldable pub history : TraceSink → List Use → Buffers → List (List TraceRecord) × Buffers
history sink [] bufs = ([], bufs)
history sink (push s name nr args rip outcome ∷ uses) bufs =
    history sink uses (push_record bufs s name nr args rip outcome)
history sink (take_all s ∷ uses) bufs =
    let (records, left) = drain bufs s in
    let (batches, end) = history sink uses left in
    (if sink == s then records ∷ batches else batches, end)

-- A record without its number, which begins anew after a drain.
abbrev pub unnumbered : TraceRecord → TraceRecord
unnumbered r = record r { seq = 0 }

-- What was pushed to the sink, in order.
abbrev pub pushed : TraceSink → List Use → List TraceRecord
pushed sink [] = []
pushed sink (push s name nr args rip outcome ∷ uses) =
    let rest = pushed sink uses in
    if sink == s
    then record { seq = 0; nr = nr; name = name; args = args; ret = traced_ret outcome; rip = rip }
      ∷ rest
    else rest
pushed sink (take_all s ∷ uses) = pushed sink uses

abbrev pub concat {ℓ} : {A : Type ℓ} → List (List A) → List A
concat [] = []
concat (xs ∷ xss) = xs ++ concat xss

-- Everything that was drained from the sink, and what is left in it.
abbrev pub collected : TraceSink → List (List TraceRecord) × Buffers → List TraceRecord
collected sink (batches, end) = concat batches ++ end sink

pub map-append {ℓ κ} :
    {A : Type ℓ} {B : Type κ} (f : A → B) (xs ys : List A) → map f (xs ++ ys) ≡ map f xs ++ map f ys
map-append f [] ys = refl
map-append f (x ∷ xs) ys = ap (λ zs. f x ∷ zs) (map-append f xs ys)

-- Whatever the order of pushes and drains, on this sink and on others, what is drained from a sink
-- and what is left in it are, numbers aside, what it held and what was pushed to it, in order:
-- no record is lost, repeated or moved.
pub history_conserves :
    (sink : TraceSink) (uses : List Use) (bufs : Buffers)
    → map unnumbered (collected sink (history sink uses bufs))
      ≡ map unnumbered (bufs sink) ++ pushed sink uses
unfolding history push_record drain
history_conserves sink [] bufs = sym (append-nil _)
history_conserves sink (push s name nr args rip outcome ∷ uses) bufs =
    let later = history_conserves sink uses (push_record bufs s name nr args rip outcome) in
    elim (Bool-cases (sink == s)) [
      | inl same ↦
          let here : bufs sink ≡ bufs s = ap bufs ((==_iff sink s).0 same) in
          let later_here = (rw same at later) in
          rw (same, here)
            (later_here
              ∙ ap (λ rs. rs ++ pushed sink uses) (map-append unnumbered (bufs s) _)
              ∙ append_assoc (map unnumbered (bufs s)) _ _)
      | inr other ↦ rw other (rw other at later)
    ]
history_conserves sink (take_all s ∷ uses) bufs =
    let later = history_conserves sink uses (drain bufs s).1 in
    elim (Bool-cases (sink == s)) [
      | inl same ↦
          let here : bufs sink ≡ bufs s = ap bufs ((==_iff sink s).0 same) in
          let later_here = (rw same at later) in
          rw (same, here)
            (ap (map unnumbered) (append_assoc (bufs s) _ _)
              ∙ map-append unnumbered (bufs s) _
              ∙ ap (λ rs. map unnumbered (bufs s) ++ rs) later_here)
      | inr other ↦ rw other (rw other at later)
    ]
