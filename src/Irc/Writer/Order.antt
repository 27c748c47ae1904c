-- ===== src/Irc/Writer/Order.antt =====
-- Messages that several goroutines write come out whole, one after the other.
use irc_idler.Prelude.{
  ℕ, List, [], ◌∷◌, ◌++◌, Bytes, Bool, true, false, ◌≡◌, refl, arith, append-nil, append_assoc, ap,
  ◌∙◌, sym,
}
use irc_idler.Irc.Message.{Message, chunks, to_string}
use irc_idler.Irc.Message.Printed.{joined, joined-append, to_string-joined}
use irc_idler.Irc.Writer.{
  Caller, away, waiting, writing, IoWriter, new_writer, Step, calls, locks, writes, returns,
  Reached, start, next,
}

unfoldable pub in_turn : Caller → Bool
in_turn away = false
in_turn (waiting m) = false
in_turn (writing m cs) = true

unfoldable pub left : Caller → List Bytes
left away = []
left (waiting m) = []
left (writing m cs) = cs

all_chunks : List Message → List Bytes
all_chunks [] = []
all_chunks (m ∷ ms) = chunks m ++ all_chunks ms

all_chunks-append :
    (ms : List Message) (m : Message) → all_chunks (ms ++ m ∷ []) ≡ all_chunks ms ++ chunks m
unfolding all_chunks
all_chunks-append [] m = append-nil (chunks m)
all_chunks-append (n ∷ ms) m = simp (all_chunks-append ms m, append_assoc)

record IsOrderly (s : IoWriter) : Type 0 where
  guarded : (i : ℕ) → in_turn (s.callers i) ≡ true → s.locked ≡ true
  one : (i j : ℕ) → in_turn (s.callers i) ≡ true → in_turn (s.callers j) ≡ true → i ≡ j
  whole :
      (i : ℕ) → in_turn (s.callers i) ≡ true → s.put_out ++ left (s.callers i) ≡ all_chunks s.taken
  at_rest : s.locked ≡ false → s.put_out ≡ all_chunks s.taken

new_writer-IsOrderly : IsOrderly new_writer
unfolding new_writer in_turn all_chunks
new_writer-IsOrderly = record {
  guarded = λ i h. cc h;
  one = λ i j h k. absurd (cc h);
  whole = λ i h. absurd (cc h);
  at_rest = λ h. refl;
}

Step-IsOrderly : {s t : IoWriter} → Step s t → IsOrderly s → IsOrderly t
unfolding in_turn left
Step-IsOrderly {s} (calls i m e) o = record {
  guarded = λ j h. ground (arith, o.guarded j);
  one = λ j k h h'. ground (arith, o.one j k);
  whole = λ j h. ground (arith, o.whole j);
  at_rest = o.at_rest;
}
Step-IsOrderly {s} (locks i m e free) o = record {
  guarded = λ j h. refl;
  one = λ j k h h'. ground (arith, o.guarded j, o.guarded k);
  whole = λ j h. ground (arith, o.guarded j, o.at_rest free, all_chunks-append s.taken m);
  at_rest = λ h. absurd (cc h);
}
Step-IsOrderly {s} (writes i m c cs e) o = record {
  guarded = λ j h. ground (arith, o.guarded j, o.guarded i);
  one = λ j k h h'. ground (arith, o.one j k, o.one i k, o.one j i);
  whole = λ j h. ground (arith, o.one i j, o.whole i, append_assoc s.put_out (c ∷ []) cs);
  at_rest = λ h. absurd (ground (arith, o.guarded i));
}
Step-IsOrderly {s} (returns i m e) o = record {
  guarded = λ j h. absurd (ground (arith, o.one i j));
  one = λ j k h h'. absurd (ground (arith, o.one i j));
  whole = λ j h. absurd (ground (arith, o.one i j));
  at_rest = λ h. ground (arith, o.whole i, append-nil s.put_out);
}

Reached-IsOrderly : {s : IoWriter} → Reached s → IsOrderly s
Reached-IsOrderly start = new_writer-IsOrderly
Reached-IsOrderly (next r st) = Step-IsOrderly st (Reached-IsOrderly r)

-- The texts of the messages, one after the other.
abbrev pub texts : List Message → Bytes
texts [] = []
texts (m ∷ ms) = to_string m ++ texts ms

joined-all_chunks : (ms : List Message) → joined (all_chunks ms) ≡ texts ms
unfolding all_chunks
joined-all_chunks [] = refl
joined-all_chunks (m ∷ ms) = simp (joined-append, to_string-joined, joined-all_chunks ms)

-- However goroutines call WriteMessage: at most one of them writes; what was written, with what
-- that one has still to write, is the texts of the messages whose turn has come, whole and in
-- order; and while the lock is free, what was written is these texts.
pub write_message_lem :
    {s : IoWriter}
    → Reached s
    → ((i j : ℕ) → in_turn (s.callers i) ≡ true → in_turn (s.callers j) ≡ true → i ≡ j)
      × ((i : ℕ)
          → in_turn (s.callers i) ≡ true
          → joined s.put_out ++ joined (left (s.callers i)) ≡ texts s.taken)
      × (s.locked ≡ false → joined s.put_out ≡ texts s.taken)
write_message_lem {s} r =
    let o = Reached-IsOrderly r in
    (
      o.one,
      λ i h.
          sym (joined-append s.put_out (left (s.callers i)))
          ∙ ap joined (o.whole i h)
          ∙ joined-all_chunks s.taken,
      λ h. ap joined (o.at_rest h) ∙ joined-all_chunks s.taken,
    )
