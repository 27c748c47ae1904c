-- ===== src/Irc/Message.antt =====
-- irc/message.go: the message, its comparison, its printing and its length.
pub mod Printed
use irc_idler.Prelude.{
  ℕ, ◌+◌, Bool, true, false, List, [], ◌∷◌, ◌++◌, Bytes, bytes_eq, has_byte, space, colon, length,
  Option, none, some, if◌then◌else◌, ◌&&◌, ◌==◌,
}

pub record Message : Type 0 where
  pub prefix : Bytes
  pub command : Bytes
  pub params : List Bytes

abbrev pub crlf : Bytes
crlf = 13 ∷ 10 ∷ []

-- The text of the parameters' `Fprintf` calls: a colon only before a last one with a space.
unfoldable pub param_chunks : List Bytes → List Bytes
param_chunks [] = []
param_chunks (p ∷ []) = (if has_byte space p then space ∷ colon ∷ p else space ∷ p) ∷ []
param_chunks (p ∷ q ∷ ps) = (space ∷ p) ∷ param_chunks (q ∷ ps)

unfoldable pub prefix_chunks : Bytes → List Bytes
prefix_chunks [] = []
prefix_chunks (c ∷ s) = (colon ∷ ((c ∷ s) ++ space ∷ [])) ∷ []

-- What `WriteTo` hands to its writer, one entry for each call, in order.
unfoldable pub chunks : Message → List Bytes
unfolding param_chunks prefix_chunks
chunks m = prefix_chunks m.prefix ++ (m.command ∷ (param_chunks m.params ++ crlf ∷ []))

-- An `io.Writer` over a state `W`: the bytes taken, the error if any, and the new state.
abbrev pub Writer : Type 0 → Type 0 → Type 0
Writer E W = Bytes → W → ℕ × Option E × W

-- The named results `n` and `err` of `WriteTo`, after the closure `checkErr`: its test is on the
-- outer `err`.
unfoldable pub check_err : {E : Type 0} → ℕ → Option E → ℕ → Option E → ℕ × Option E
check_err n none sz e = (n + sz, none)
check_err n (some old) sz e = (n + sz, e)

module _ {E W : Type 0} where
  unfoldable pub write_chunks : Writer E W → List Bytes → ℕ × Option E → W → ℕ × Option E × W
  unfolding check_err
  write_chunks write [] (n, err) w = (n, err, w)
  write_chunks write (c ∷ cs) (n, err) w =
      let (sz, e, w') = write c w in write_chunks write cs (check_err n err sz e) w'

  unfoldable pub write_to : Writer E W → Message → W → ℕ × Option E × W
  unfolding write_chunks chunks
  write_to write m w = write_chunks write (chunks m) (0, none) w

-- A `bytes.Buffer` takes everything.
unfoldable pub buffer_write : Writer ⊥ Bytes
buffer_write s buf = (length s, none, buf ++ s)

unfoldable pub to_string : Message → Bytes
unfolding write_to buffer_write
to_string m = (write_to buffer_write m []).2

unfoldable pub params_eq : List Bytes → List Bytes → Bool
params_eq [] [] = true
params_eq [] (q ∷ qs) = true
params_eq (p ∷ ps) [] = true
params_eq (p ∷ ps) (q ∷ qs) = if bytes_eq p q then params_eq ps qs else false

-- `Eq`: the loop over the parameters runs only if the lengths agree.
unfoldable pub eq : Message → Message → Bool
unfolding params_eq
eq m1 m2 =
    if bytes_eq m1.prefix m2.prefix && bytes_eq m1.command m2.command
    then (if length m1.params == length m2.params then params_eq m1.params m2.params else false)
    else false

last_has_space : List Bytes → Bool
last_has_space [] = false
last_has_space (p ∷ []) = has_byte space p
last_has_space (p ∷ q ∷ ps) = last_has_space (q ∷ ps)

total_length : List Bytes → ℕ
total_length [] = 0
total_length (p ∷ ps) = length p + total_length ps

prefix_len : Bytes → ℕ
prefix_len [] = 0
prefix_len (c ∷ s) = length (c ∷ s) + 2

unfoldable pub len : Message → ℕ
unfolding last_has_space total_length prefix_len
len m =
    prefix_len m.prefix
    + length m.command
    + length m.params
    + (if last_has_space m.params then 1 else 0)
    + total_length m.params
    + 2
