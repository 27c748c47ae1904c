-- ===== src/Irc/Message/Printed.antt =====
-- What a message prints as: `WriteTo` into a buffer, `String` and `Len` agree.
use irc_idler.Prelude.{
  ℕ, ◌+◌, true, List, [], ◌∷◌, ◌++◌, Bytes, space, length, Option, none, ◌≡◌, refl, arith,
  append-nil, append_assoc, length-append, if◌then◌else◌, bytes_eq_iff, ◌↔◌, ap, ap,
}
use irc_idler.Irc.Message.{
  Message, chunks, param_chunks, prefix_chunks, Writer, check_err, write_chunks, write_to,
  buffer_write, to_string, len, last_has_space, total_length, prefix_len, crlf, eq, params_eq,
}

-- All that the calls write, in one text.
abbrev pub joined : List Bytes → Bytes
joined [] = []
joined (c ∷ cs) = c ++ joined cs

pub joined-append : (cs ds : List Bytes) → joined (cs ++ ds) ≡ joined cs ++ joined ds
joined-append [] ds = refl
joined-append (c ∷ cs) ds = simp (joined-append cs ds, append_assoc)

write_chunks-buffer :
    (cs : List Bytes) (n : ℕ) (buf : Bytes)
    → write_chunks buffer_write cs (n, none) buf ≡ (n + length (joined cs), none, buf ++ joined cs)
unfolding write_chunks buffer_write check_err
write_chunks-buffer [] n buf = ground (arith, append-nil buf)
write_chunks-buffer (c ∷ cs) n buf = ground (
  arith,
  write_chunks-buffer cs (n + length c) (buf ++ c),
  length-append c (joined cs),
  append_assoc buf c (joined cs),
)

pub to_string-joined : (m : Message) → to_string m ≡ joined (chunks m)
unfolding to_string write_to
to_string-joined m = ap (λ (r : ℕ × Option ⊥ × Bytes). r.2) (write_chunks-buffer (chunks m) 0 [])

param_chunks-length :
    (ps : List Bytes)
    → length (joined (param_chunks ps))
      ≡ length ps + (if last_has_space ps then 1 else 0) + total_length ps
unfolding param_chunks last_has_space total_length
param_chunks-length [] = omega arith
param_chunks-length (p ∷ []) = ground (arith, append-nil p)
param_chunks-length (p ∷ q ∷ ps) =
    ground (arith, param_chunks-length (q ∷ ps), length-append p (joined (param_chunks (q ∷ ps))))

prefix_chunks-length : (s : Bytes) → length (joined (prefix_chunks s)) ≡ prefix_len s
unfolding prefix_chunks prefix_len
prefix_chunks-length [] = refl
prefix_chunks-length (c ∷ s) =
    ground (arith, length-append s (space ∷ []), append-nil (s ++ space ∷ []))

-- `Len` is the length of the printed message.
pub length-to_string : (m : Message) → length (to_string m) ≡ len m
unfolding len chunks
length-to_string m = rw to_string-joined (
    rw joined-append (
      ground (
        arith,
        length-append (joined (prefix_chunks m.prefix))
            (m.command ++ joined (param_chunks m.params ++ crlf ∷ [])),
        length-append m.command (joined (param_chunks m.params ++ crlf ∷ [])),
        joined-append (param_chunks m.params) (crlf ∷ []),
        length-append (joined (param_chunks m.params)) crlf,
        prefix_chunks-length m.prefix,
        param_chunks-length m.params,
      )))

-- Without a fault nothing is reported; with one neither, since `check_err` tests the old error.
write_chunks-error :
    {E W : Type 0} (write : Writer E W) (cs : List Bytes) (n : ℕ) (w : W)
    → (write_chunks write cs (n, none) w).1 ≡ none
unfolding write_chunks check_err
write_chunks-error write [] n w = refl
write_chunks-error write (c ∷ cs) n w =
    let (sz, e, w') = write c w in write_chunks-error write cs (n + sz) w'

-- `WriteTo` returns no error, whatever errors its writer returns.
pub write_to-error :
    {E W : Type 0} (write : Writer E W) (m : Message) (w : W) → (write_to write m w).1 ≡ none
unfolding write_to
write_to-error write m w = write_chunks-error write (chunks m) 0 w

params_eq_lem : (ps qs : List Bytes) → length ps ≡ length qs → (params_eq ps qs ≡ true) ↔ (ps ≡ qs)
unfolding params_eq
params_eq_lem [] [] h = ground arith
params_eq_lem [] (q ∷ qs) h = absurd (omega arith)
params_eq_lem (p ∷ ps) [] h = absurd (omega arith)
params_eq_lem (p ∷ ps) (q ∷ qs) h =
    ground (arith, bytes_eq_iff p q, params_eq_lem ps qs (omega arith))

-- `Eq` holds exactly when the two messages are equal.
pub eq_iff : (m1 m2 : Message) → (eq m1 m2 ≡ true) ↔ (m1 ≡ m2)
unfolding eq
eq_iff m1 m2 = ground (
  arith,
  bytes_eq_iff m1.prefix m2.prefix,
  bytes_eq_iff m1.command m2.command,
  λ (h : length m1.params ≡ length m2.params). params_eq_lem m1.params m2.params h,
)
