-- ===== src/Irc/Writer.antt =====
-- irc/message.go: `ioWriter`, whose `WriteMessage` holds a lock over the calls of `Write` that
-- `WriteTo` makes. Goroutines go by numbers, and any of them may call it at any time.
pub mod Order
mod Tests
use irc_idler.Prelude.{ℕ, ◌==◌, List, [], ◌∷◌, ◌++◌, Bytes, Bool, true, false, ◌≡◌, if◌then◌else◌}
use irc_idler.Irc.Message.{Message, chunks}

-- Where a goroutine stands: outside of the call, at `Lock`, and in `WriteTo` with the texts that are
-- still to be written.
pub data Caller : Type 0 where
  away : Caller
  waiting : Message → Caller
  writing : Message → List Bytes → Caller

-- The lock, the goroutines and the calls of `Write` so far; `taken` are the messages whose turn has
-- come, in that order.
pub record IoWriter : Type 0 where
  pub locked : Bool
  pub callers : ℕ → Caller
  pub put_out : List Bytes
  pub taken : List Message

-- `NewWriter`.
unfoldable pub new_writer : IoWriter
new_writer = record { locked = false; callers = λ i. away; put_out = []; taken = [] }

abbrev pub update : (ℕ → Caller) → ℕ → Caller → ℕ → Caller
update callers i c j = if i == j then c else callers j

-- `WriteMessage`.
pub data Step (s : IoWriter) : IoWriter → Type 0 where
  calls :
      (i : ℕ) (m : Message)
      → s.callers i ≡ away
      → Step s (record s { callers = update s.callers i (waiting m) })
  locks :
      (i : ℕ) (m : Message)
      → s.callers i ≡ waiting m
      → s.locked ≡ false
      → Step s (record s {
        locked = true;
        callers = update s.callers i (writing m (chunks m));
        taken = s.taken ++ m ∷ [];
      })
  writes :
      (i : ℕ) (m : Message) (c : Bytes) (cs : List Bytes)
      → s.callers i ≡ writing m (c ∷ cs)
      → Step s
          (record s { callers = update s.callers i (writing m cs); put_out = s.put_out ++ c ∷ [] })
  returns :
      (i : ℕ) (m : Message)
      → s.callers i ≡ writing m []
      → Step s (record s { locked = false; callers = update s.callers i away })

-- The states under any schedule.
pub data Reached : IoWriter → Type 0 where
  start : Reached new_writer
  next : {s t : IoWriter} → Reached s → Step s t → Reached t
