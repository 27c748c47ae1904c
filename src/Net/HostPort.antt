-- ===== src/Net/HostPort.antt =====
-- `net.JoinHostPort`, `net.SplitHostPort` and `fmt.Sprint` of a port, as the program calls them.
pub mod Joined
use irc_idler.Prelude.{
  ℕ, zero, suc, ◌+◌, ◌/◌, ◌%◌, [], ◌∷◌, ◌++◌, Bytes, has_byte, colon, Bool, true, false, ◌||◌,
  Option, none, some, ltb, ◌==◌, if◌then◌else◌,
}

-- The decimal digits of a number, for at most as many digits as the fuel.
unfoldable pub decimal_digits : ℕ → ℕ → Bytes
decimal_digits zero n = []
decimal_digits (suc fuel) n =
    let rest = decimal_digits fuel (n / 10) in
    if ltb n 10 then (b'0' + n) ∷ [] else rest ++ (b'0' + n % 10) ∷ []

-- `fmt.Sprint` of a `uint16`, which has at most five digits.
unfoldable pub sprint : ℕ → Bytes
unfolding decimal_digits
sprint n = decimal_digits 5 n

-- A host with a colon is put in brackets.
unfoldable pub join_host_port : Bytes → Bytes → Bytes
join_host_port host port =
    if has_byte colon host then b'[' ∷ host ++ b']' ∷ colon ∷ port else host ++ colon ∷ port

keep_byte : ℕ → Option (Bytes × Bytes) → Option (Bytes × Bytes)
keep_byte c none = none
keep_byte c (some (s, t)) = some (c ∷ s, t)

-- What stands before and behind the first of a byte.
unfoldable pub split_first : ℕ → Bytes → Option (Bytes × Bytes)
unfolding keep_byte
split_first b [] = none
split_first b (c ∷ s) =
    let rest = split_first b s in if c == b then some ([], s) else keep_byte c rest

behind_last : ℕ → ℕ → Bytes → Option (Bytes × Bytes) → Option (Bytes × Bytes)
behind_last b c s none = if c == b then some ([], s) else none
behind_last b c s (some (t, u)) = some (c ∷ t, u)

-- What stands before and behind the last of a byte.
unfoldable pub split_last : ℕ → Bytes → Option (Bytes × Bytes)
unfolding behind_last
split_last b [] = none
split_last b (c ∷ s) = behind_last b c s (split_last b s)

abbrev pub has_bracket : Bytes → Bool
has_bracket s = has_byte b'[' s || has_byte b']' s

-- Behind a `[`, the first `]` must stand just before the last colon.
bracketed : Bytes → Option (Bytes × Bytes) → Option (Bytes × Bytes)
bracketed port none = none
bracketed port (some (host, c ∷ s)) = none
bracketed port (some (host, [])) =
    if has_byte b'[' host || has_bracket port then none else some (host, port)

unfoldable pub host_and_port : Option (Bytes × Bytes) → Option (Bytes × Bytes)
unfolding bracketed split_first
host_and_port none = none
host_and_port (some ([], port)) = if has_bracket port then none else some ([], port)
host_and_port (some (c ∷ host, port)) =
    if c == b'['
    then bracketed port (split_first b']' host)
    else if has_byte colon (c ∷ host) || has_bracket (c ∷ host) || has_bracket port
    then none
    else some (c ∷ host, port)

-- The error is `none`.
unfoldable pub split_host_port : Bytes → Option (Bytes × Bytes)
unfolding host_and_port split_last
split_host_port s = host_and_port (split_last colon s)
