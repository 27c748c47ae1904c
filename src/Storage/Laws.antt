-- ===== src/Storage/Laws.antt =====
-- The documented behaviour of a store, by the messages that each channel's log holds.
use irc_idler.Prelude.{
  ◌<◌, Bytes, bytes_eq, false, none, some, List, [], ◌∷◌, ◌++◌, ◌≡◌, ◌≢◌, ◌⊎◌, if◌then◌else◌,
}
use irc_idler.Irc.Message.{Message}
use irc_idler.Storage.{Store, entry, end, broken}

pub record StoreLaws (S : Store) : Type 1 where
  -- The states and cursors that the operations lead to, and the messages that the store can give
  -- back as they are.
  pub IsSound : S.State → Type 0
  pub IsSoundCursor : S.Cursor → Type 0
  pub Storable : Message → Type 0
  -- The log of a channel, and what a cursor has still to give.
  pub contents : S.State → Bytes → List Message
  pub left : S.Cursor → List Message
  pub get_channel-IsSound : (k : Bytes) (s : S.State) → IsSound s → IsSound (S.get_channel k s).1
  pub log_message-IsSound :
      (k : Bytes) (m : Message) (s : S.State)
      → Storable m
      → IsSound s
      → IsSound (S.log_message k m s).1
  pub clear-IsSound : (k : Bytes) (s : S.State) → IsSound s → IsSound (S.clear k s).1
  pub replay-IsSound : (k : Bytes) (s : S.State) → IsSound s → IsSound (S.replay k s).1
  pub replay-IsSoundCursor :
      (k : Bytes) (s : S.State) {c : S.Cursor}
      → IsSound s
      → (S.replay k s).0 ≡ some c
      → IsSoundCursor c
  pub next-IsSoundCursor :
      (c : S.Cursor) {m : Message} → IsSoundCursor c → S.get c ≡ entry m → IsSoundCursor (S.next c)
  pub get_channel-contents :
      (k j : Bytes) (s : S.State) → contents (S.get_channel k s).1 j ≡ contents s j
  -- `LogMessage` appends to its own log, or fails and changes nothing.
  pub log_message-contents :
      (k j : Bytes) (m : Message) (s : S.State)
      → Storable m
      → contents (S.log_message k m s).1 j ≡ (
          if (S.log_message k m s).0
          then contents s j
          else if bytes_eq k j
          then contents s j ++ m ∷ []
          else contents s j)
  pub clear-contents :
      (k j : Bytes) (s : S.State)
      → contents (S.clear k s).1 j
        ≡ (if (S.clear k s).0 then contents s j else if bytes_eq k j then [] else contents s j)
  pub replay-contents : (k j : Bytes) (s : S.State) → contents (S.replay k s).1 j ≡ contents s j
  pub replay-left :
      (k : Bytes) (s : S.State) {c : S.Cursor}
      → IsSound s
      → (S.replay k s).0 ≡ some c
      → (left c ≡ contents s k) ⊎ (S.get c ≡ broken)
  -- Behind a message the cursor stands at the rest, or the store has failed.
  pub get_entry :
      (c : S.Cursor) {m : Message}
      → S.get c ≡ entry m
      → (rest : List Message) × (left c ≡ m ∷ rest)
        × ((left (S.next c) ≡ rest) ⊎ (S.get (S.next c) ≡ broken))
  pub get_end : (c : S.Cursor) → IsSoundCursor c → S.get c ≡ end → left c ≡ []
  pub size_falls : (c : S.Cursor) {m : Message} → S.get c ≡ entry m → S.size (S.next c) < S.size c

-- A store none of whose operations fails.
pub record IsReliable (S : Store) (laws : StoreLaws S) : Type 0 where
  pub get_channel_works : (k : Bytes) (s : S.State) → (S.get_channel k s).0 ≡ false
  pub log_message_works : (k : Bytes) (m : Message) (s : S.State) → (S.log_message k m s).0 ≡ false
  pub clear_works : (k : Bytes) (s : S.State) → (S.clear k s).0 ≡ false
  pub replay_works : (k : Bytes) (s : S.State) → (S.replay k s).0 ≢ none
  pub get_works : (c : S.Cursor) → laws.IsSoundCursor c → S.get c ≢ broken
