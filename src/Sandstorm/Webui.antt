-- ===== src/Sandstorm/Webui.antt =====
-- sandstorm/webui/webui.go. What the router, the decoding of a form, the tokens against forged
-- requests and the Sandstorm session give is a parameter.
use irc_idler.Prelude.{
  ℕ, zero, suc, List, [], ◌∷◌, Bytes, bytes, Bool, true, false, not, Option, none, some, ◌==◌,
  if◌then◌else◌,
}
use irc_idler.Net.HostPort.{join_host_port, sprint}

-- The port is a `uint16`.
pub record ServerConfig : Type 0 where
  pub host : Bytes
  pub port : ℕ
  pub tls : Bool

unfoldable pub to_string : ServerConfig → Bytes
to_string c = join_host_port c.host (sprint c.port)

pub record SettingsForm : Type 0 where
  pub config : ServerConfig
  pub xsrf_token : Bytes

-- What the handlers send to the backend and receive from it. A capability and a connection go by
-- numbers.
pub data Event : Type 0 where
  ip_network_cap : ℕ → Event
  set_server_config : ServerConfig → Event
  client_conn : ℕ → Event
  get_server_config : Event
  have_network : Event

pub data FormError : Type 0 where
  bad_xsrf_token illegal_port_number : FormError

abbrev pub error_text : FormError → Bytes
error_text bad_xsrf_token = bytes "Bad XSRF Token"
error_text illegal_port_number = bytes "Illegal Port Number (must be non-zero)"

-- The tokens of package xsrftoken, for a key, a user and an action.
pub record Tokens : Type 0 where
  pub generate : Bytes → Bytes → Bytes → Bytes
  pub valid : Bytes → Bytes → Bytes → Bytes → Bool

abbrev pub user : Bytes
user = bytes "TODO"

abbrev pub action : Bytes
action = bytes "/proxy-settings"

-- An answer: the page at `/`, a redirect to it, an error with its text, or an empty one.
pub data Response : Type 0 where
  page : SettingsForm → Bool → Response
  see_other : Bytes → Response
  bad_request : Bytes → Response
  nothing : Response

-- What `ParseForm` and the decoder make of a request.
pub data Decoded : Type 0 where
  form : SettingsForm → Decoded
  no_form : Bytes → Decoded

module _ (tokens : Tokens) where
  open tokens use {generate, valid}

  -- `Validate` of a form, with the error that it returns.
  unfoldable pub validate : Bytes → SettingsForm → Option FormError
  validate key f =
      if not (valid f.xsrf_token key user action)
      then some bad_xsrf_token
      else if f.config.port == 0
      then some illegal_port_number
      else none

  -- `GET /`, with what the backend sends.
  unfoldable pub index : Bytes → Bool → ServerConfig → Response
  index key network config =
      page (record { config = config; xsrf_token = generate key user action }) network

  settled : SettingsForm → Option FormError → Response × List Event
  settled f none = (see_other (bytes "/"), set_server_config f.config ∷ [])
  settled f (some e) = (bad_request (error_text e), [])

  -- `POST /proxy-settings`, with what is sent to the backend.
  unfoldable pub post_settings : Bytes → Decoded → Response × List Event
  unfolding settled
  post_settings key (no_form e) = (bad_request e, [])
  post_settings key (form f) = settled f (validate key f)

-- `io.LimitReader`.
unfoldable pub limited : ℕ → Bytes → Bytes
limited zero s = []
limited (suc n) [] = []
limited (suc n) (c ∷ s) = c ∷ limited n s

claimed : Option ℕ → Response × List Event
claimed none = (bad_request [], [])
claimed (some cap) = (nothing, ip_network_cap cap ∷ [])

-- `POST /ip-network-cap`, with the body, if it can be read, and what the session makes of a token.
unfoldable pub post_network : (Bytes → Option ℕ) → Option Bytes → Response × List Event
unfolding claimed
post_network claim none = (bad_request [], [])
post_network claim (some body) = claimed (claim (limited 512 body))

-- `contextRWC`: a connection, whether it was closed, and whether its context is done.
pub record ContextRwc : Type 0 where
  pub conn : ℕ
  pub closed : Bool
  pub cancelled : Bool

unfoldable pub new_context_rwc : ℕ → ContextRwc
new_context_rwc conn = record { conn = conn; closed = false; cancelled = false }

-- `Close`, with the error that the connection's own `Close` returns.
unfoldable pub close : Bool → ContextRwc → Bool × ContextRwc
close err c = (err, record c { closed = true; cancelled = true })

-- `GET /connect`: the connection that goes to the backend. The handler returns, and with it the
-- socket is closed, once the context is done.
unfoldable pub get_connect : ℕ → ContextRwc × List Event
unfolding new_context_rwc
get_connect conn = (new_context_rwc conn, client_conn conn ∷ [])
