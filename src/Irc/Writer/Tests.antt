-- ===== src/Irc/Writer/Tests.antt =====
-- Two goroutines that write a message each.
use irc_idler.Prelude.{ℕ, [], ◌∷◌, ◌++◌, true, false, ◌≡◌, refl}
use irc_idler.Irc.Message.{Message, chunks, crlf}
use irc_idler.Irc.Message.Printed.{joined}
use irc_idler.Irc.Codes.{cmd_ping, cmd_pong}
use irc_idler.Irc.Writer.{IoWriter, new_writer, calls, locks, writes, Reached, start, next}
use irc_idler.Irc.Writer.Order.{in_turn, left, texts, write_message_lem}

abbrev ping_msg : Message
ping_msg = record { prefix = []; command = cmd_ping; params = [] }

abbrev pong_msg : Message
pong_msg = record { prefix = []; command = cmd_pong; params = [] }

-- The second has its turn, and has written its command.
half_way : (s : IoWriter) × Reached s × (s.taken ≡ pong_msg ∷ [])
unfolding new_writer chunks
half_way = (
  _,
  next
      (next (next (next start (calls 0 ping_msg refl)) (calls 1 pong_msg refl))
        (locks 1 pong_msg refl refl))
      (writes 1 pong_msg cmd_pong (crlf ∷ []) refl),
  refl,
)

write_message_lem_example :
    ((i j : ℕ)
      → in_turn (half_way.0.callers i) ≡ true
      → in_turn (half_way.0.callers j) ≡ true
      → i ≡ j)
    × ((i : ℕ)
        → in_turn (half_way.0.callers i) ≡ true
        → joined half_way.0.put_out ++ joined (left (half_way.0.callers i))
          ≡ texts half_way.0.taken)
    × (half_way.0.locked ≡ false → joined half_way.0.put_out ≡ texts half_way.0.taken)
write_message_lem_example = write_message_lem half_way.1
