-- ===== src/Storage/Holds.antt =====
-- Logs all of whose messages are of one kind: the operations of a store keep them so.
use mathlib.Core.Path.{subst}
use irc_idler.Prelude.{
  Bytes, bytes_eq, Bool, List, [], ◌∷◌, ◌++◌, All, All-append, true, false, some, ◌≡◌, sym, inl,
  inr, ◌⊎◌, if◌then◌else◌,
}
use irc_idler.Irc.Message.{Message}
use irc_idler.Storage.{Store, entry, broken}
use irc_idler.Storage.Laws.{StoreLaws}

module _ {S : Store} (laws : StoreLaws S) (Q : Message → Type 0) where
  open S use {State, Cursor, get_channel, log_message, replay, clear, get, next}
  open laws use {contents, left, IsSound, IsSoundCursor, Storable}

  -- The state is sound, and each message in its logs is of the kind.
  pub record Holds (s : State) : Type 0 where
    pub sound : IsSound s
    pub every : (k : Bytes) → All Q (contents s k)

  pub get_channel-Holds : (k : Bytes) (s : State) → Holds s → Holds (get_channel k s).1
  get_channel-Holds k s h = record {
    sound = laws.get_channel-IsSound k s h.sound;
    every = λ j. subst (All Q) (sym (laws.get_channel-contents k j s)) (h.every j);
  }

  pub replay-Holds : (k : Bytes) (s : State) → Holds s → Holds (replay k s).1
  replay-Holds k s h = record {
    sound = laws.replay-IsSound k s h.sound;
    every = λ j. subst (All Q) (sym (laws.replay-contents k j s)) (h.every j);
  }

  All-if : (b : Bool) (xs ys : List Message) → All Q xs → All Q ys → All Q (if b then xs else ys)
  All-if true xs ys hx hy = hx
  All-if false xs ys hx hy = hy

  pub clear-Holds : (k : Bytes) (s : State) → Holds s → Holds (clear k s).1
  clear-Holds k s h = record {
    sound = laws.clear-IsSound k s h.sound;
    every = λ j. subst (All Q) (sym (laws.clear-contents k j s)) (
        All-if (clear k s).0 (contents s j) _ (h.every j)
          (All-if (bytes_eq k j) [] (contents s j) tt (h.every j)));
  }

  pub log_message-Holds :
      (k : Bytes) (m : Message) (s : State)
      → Q m
      → Storable m
      → Holds s
      → Holds (log_message k m s).1
  log_message-Holds k m s ok fits h = record {
    sound = laws.log_message-IsSound k m s fits h.sound;
    every = λ j. subst (All Q) (sym (laws.log_message-contents k j m s fits)) (
        All-if (log_message k m s).0 (contents s j) _ (h.every j) (
          All-if (bytes_eq k j) (contents s j ++ m ∷ []) (contents s j)
            (All-append Q (contents s j) (m ∷ []) (h.every j) (ok, tt)) (h.every j)));
  }

  -- What a cursor has still to give is of that kind, if it gives more.
  abbrev pub Gives : Cursor → Type 0
  Gives c = IsSoundCursor c × (All Q (left c) ⊎ (get c ≡ broken))

  pub replay-Gives :
      (k : Bytes) (s : State) {c : Cursor} → Holds s → (replay k s).0 ≡ some c → Gives c
  replay-Gives k s h e = (
    laws.replay-IsSoundCursor k s h.sound e,
    elim (laws.replay-left k s h.sound e) [
      | inl at ↦ inl (subst (All Q) (sym at) (h.every k))
      | inr b ↦ inr b
    ],
  )

  -- What it gives is of that kind, and so is what stands behind it.
  pub entry-Gives : (c : Cursor) {m : Message} → Gives c → get c ≡ entry m → Q m × Gives (next c)
  entry-Gives c (sound, inr b) e = absurd (cc (e, b))
  entry-Gives c (sound, inl ok) e =
      let (ms, same, behind) = laws.get_entry c e in
      let (first, others) = subst (All Q) same ok in
      let on : All Q (left (next c)) ⊎ (get (next c) ≡ broken) = elim behind [
        | inl at ↦ inl (subst (All Q) (sym at) others)
        | inr b ↦ inr b
      ] in
      (first, (laws.next-IsSoundCursor c sound e, on))
