-- ===== src/Storage/Ephemeral/Meets.antt =====
-- The in-memory store does what the interface documents.
use native.Mathlib.Numerals.{add-one}
use irc_idler.Prelude.{
  ℕ, zero, suc, ◌<◌, Bytes, bytes_eq, bytes_eq_iff, Option, none, some, List, [], ◌∷◌, ◌++◌, length,
  get_elem?, ◌≡◌, ◌≢◌, refl, inl, arith, if◌then◌else◌,
}
use irc_idler.Prelude.Dict.{lookup, lookup-insert, lookup-delete}
use irc_idler.Irc.Message.{Message}
use irc_idler.Storage.{entry, end, broken}
use irc_idler.Storage.Laws.{StoreLaws, IsReliable}
use irc_idler.Storage.Ephemeral.{
  new_store, Logs, Cursor, empty, cursor, get_channel, log_message, clear, replay, next, get, size,
  ephemeral, appended, fetched, cursor_at,
}

messages : Option (List Message) → List Message
messages none = []
messages (some ms) = ms

log_of : Logs → Bytes → List Message
unfolding messages
log_of s name = messages (lookup name s)

drop : ℕ → List Message → List Message
drop zero ms = ms
drop (suc n) [] = []
drop (suc n) (m ∷ ms) = drop n ms

remaining : Cursor → List Message
remaining empty = []
remaining (cursor ms i) = drop i ms

drop_step :
    (ms : List Message) (i : ℕ) (m : Message)
    → get_elem? ms i ≡ some m
    → (drop i ms ≡ m ∷ drop (suc i) ms) × (i < length ms)
unfolding drop
drop_step [] i m h = cc
drop_step (x ∷ ms) zero m h = (ground arith, omega arith)
drop_step (x ∷ ms) (suc i) m h =
    let (step, room) = drop_step ms i m h in (step, omega (arith, room))

drop_end : (ms : List Message) (i : ℕ) → get_elem? ms i ≡ none → drop i ms ≡ []
unfolding drop
drop_end [] zero h = refl
drop_end [] (suc i) h = refl
drop_end (x ∷ ms) zero h = cc
drop_end (x ∷ ms) (suc i) h = drop_end ms i h

log_lem :
    (k j : Bytes) (m : Message) (s : Logs)
    → log_of (log_message k m s).1 j ≡ (if bytes_eq k j then log_of s j ++ m ∷ [] else log_of s j)
unfolding log_of log_message
log_lem k j m s = ground (arith, lookup-insert k j (appended (lookup k s) m) s, bytes_eq_iff k j)

clear_lem :
    (k j : Bytes) (s : Logs) → log_of (clear k s).1 j ≡ (if bytes_eq k j then [] else log_of s j)
unfolding log_of clear
clear_lem k j s = ground (arith, lookup-delete k j s)

cursor_at_lem : (o : Option (List Message)) → remaining (cursor_at o) ≡ messages o
unfolding remaining cursor_at drop messages
cursor_at_lem none = refl
cursor_at_lem (some ms) = refl

replay_lem :
    (k : Bytes) (s : Logs) {c : Cursor} → (replay k s).0 ≡ some c → remaining c ≡ log_of s k
unfolding replay log_of
replay_lem k s h = cc (cursor_at_lem (lookup k s))

fetched_inv : (o : Option Message) {m : Message} → fetched o ≡ entry m → o ≡ some m
unfolding fetched
fetched_inv none h = cc
fetched_inv (some x) h = ground arith

fetched_end : (o : Option Message) → fetched o ≡ end → o ≡ none
unfolding fetched
fetched_end none h = refl
fetched_end (some x) h = cc

get_lem :
    (c : Cursor) {m : Message}
    → get c ≡ entry m
    → (remaining c ≡ m ∷ remaining (next c)) × (size (next c) < size c)
unfolding get remaining next size
get_lem empty h = cc
get_lem (cursor ms i) {m} h =
    let (step, room) = drop_step ms i m (fetched_inv (get_elem? ms i) h) in
    rw add-one (step, omega (arith, room))

end_lem : (c : Cursor) → get c ≡ end → remaining c ≡ []
unfolding get remaining
end_lem empty h = refl
end_lem (cursor ms i) h = drop_end ms i (fetched_end (get_elem? ms i) h)

pub ephemeral_laws : StoreLaws ephemeral
unfolding get_channel log_message clear replay
ephemeral_laws = record {
  IsSound = λ s. Unit;
  IsSoundCursor = λ c. Unit;
  Storable = λ m. Unit;
  contents = log_of;
  left = remaining;
  get_channel-IsSound = λ k s h. tt;
  log_message-IsSound = λ k m s u h. tt;
  clear-IsSound = λ k s h. tt;
  replay-IsSound = λ k s h. tt;
  replay-IsSoundCursor = λ k s {c} u h. tt;
  next-IsSoundCursor = λ c {m} u h. tt;
  get_channel-contents = λ k j s. refl;
  log_message-contents = λ k j m s u. log_lem k j m s;
  clear-contents = clear_lem;
  replay-contents = λ k j s. refl;
  replay-left = λ k s {c} u h. inl (replay_lem k s h);
  get_entry = λ c {m} h. (remaining (next c), (get_lem c h).0, inl refl);
  get_end = λ c u h. end_lem c h;
  size_falls = λ c {m} h. (get_lem c h).1;
}

-- A new store holds nothing.
pub new_store_empty : (k : Bytes) → ephemeral_laws.contents new_store k ≡ []
unfolding ephemeral_laws new_store log_of lookup
new_store_empty k = refl

-- Every state is sound, and every message can be stored.
pub ephemeral_stores :
    ((s : Logs) → ephemeral_laws.IsSound s) × ((m : Message) → ephemeral_laws.Storable m)
unfolding ephemeral_laws
ephemeral_stores = (λ s. tt, λ m. tt)

fetched-works : (o : Option Message) → fetched o ≢ broken
unfolding fetched
fetched-works none e = cc e
fetched-works (some m) e = cc e

get-works : (c : Cursor) → get c ≢ broken
unfolding get
get-works empty e = cc e
get-works (cursor ms i) e = fetched-works (get_elem? ms i) e

-- No operation of the in-memory store fails.
pub ephemeral-IsReliable : IsReliable ephemeral ephemeral_laws
unfolding get_channel log_message clear replay
ephemeral-IsReliable = record {
  get_channel_works = λ k s. refl;
  log_message_works = λ k m s. refl;
  clear_works = λ k s. refl;
  replay_works = λ k s e. cc e;
  get_works = λ c u. get-works c;
}

-- The in-memory store meets the laws of a store with a log for each channel that is empty in a
-- new store: LogMessage appends to it, Clear empties it, other channels' logs stay as they are,
-- and a cursor gives the log's messages in order and then the end. It does so in all states and
-- for all messages, and no operation fails.
pub ephemeral-StoreLaws :
    (laws : StoreLaws ephemeral) × ((s : Logs) → laws.IsSound s)
    × ((m : Message) → laws.Storable m)
    × ((k : Bytes) → laws.contents new_store k ≡ [])
    × IsReliable ephemeral laws
ephemeral-StoreLaws =
    (ephemeral_laws, ephemeral_stores.0, ephemeral_stores.1, new_store_empty, ephemeral-IsReliable)
