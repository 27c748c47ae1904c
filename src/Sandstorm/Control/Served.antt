-- ===== src/Sandstorm/Control/Served.antt =====
-- What becomes of a form and of a client that the web interface sends to `main`.
use irc_idler.Prelude.{
  ℕ, [], ◌∷◌, Bytes, Option, none, some, ◌≡◌, ◌≢◌, refl, sym, ap, ◌∙◌, arith, inl, inr, ◌⊎◌,
}
use irc_idler.Sandstorm.Webui.{
  ServerConfig, SettingsForm, Tokens, validate, set_server_config, client_conn, form, post_settings,
}
use irc_idler.Sandstorm.Control.{
  Daemon, handed, closed, Control, output, Platform, save_server_config, connector_for, start,
  initial, config_written, written, or_no_config, give_client, handle_event, load_server_config,
}
use irc_idler.Sandstorm.Control.Current.{
  running, ids, HasChannel, settings, validate_port, wanted, handle_event-IsCurrent, connector_of,
}
use irc_idler.Sandstorm.Control.Reached.{
  Reachable, Reachable-IsCurrent, set_server_config_lem, saved, start-initial,
}

module _ (p : Platform) (tokens : Tokens) (key : Bytes) where
  -- The daemon that runs where there is a network and a port.
  runs :
      (d : Option Daemon) (c : ServerConfig) (net : ℕ)
      → c.port ≢ 0
      → connector_of d ≡ wanted p c (some net)
      → (d' : Daemon) × (d ≡ some d') × (d'.connector ≡ connector_for p c net)
  unfolding wanted
  runs none c net port e = ground (arith, port, e)
  runs (some d) c net port e = (d, refl, ground (arith, port, e))

  -- The saved configuration is what `main` starts with again.
  start-saved :
      (s : Control) (c : ServerConfig) (cap_file : Option Bytes) {buf : Bytes}
      → p.marshal c ≡ some buf
      → p.write_fails s.out buf ≡ none
      → p.unmarshal buf ≡ some c
      → (s' : Control) × (start p (saved p s c) cap_file ≡ some s') × (s'.config ≡ c)
  start-saved s c cap_file text fits back = (
    initial p (saved p s c) cap_file,
    start-initial p (saved p s c) cap_file,
    unfold initial load_server_config save_server_config config_written written or_no_config in
        rw (text, fits, back) refl,
  )

  -- A form that is accepted, in a reachable state with a network, is sent on, and the loop of
  -- main goes on with its configuration: the only proxy that runs has its connector, and a later
  -- start from the file has it again, if the text of the configuration could be made and written
  -- and is read back.
  pub settings_applied :
      (s : Control) (f : SettingsForm) (net : ℕ) (cap_file : Option Bytes) {buf : Bytes}
      → Reachable p tokens key s
      → validate tokens key f ≡ none
      → s.ip_network ≡ some net
      → p.marshal f.config ≡ some buf
      → p.write_fails s.out buf ≡ none
      → p.unmarshal buf ≡ some f.config
      → ((post_settings tokens key (form f)).1 ≡ set_server_config f.config ∷ [])
        × ((s' : Control) × (d : Daemon) × (again : Control) × (handle_event p
                (set_server_config f.config)
                s
              ≡ some s')
            × (s'.config ≡ f.config)
            × (s'.daemon ≡ some d)
            × (d.connector ≡ connector_for p f.config net)
            × (running s'.out ≡ d.id ∷ [])
            × (start p s'.config_file cap_file ≡ some again)
            × (again.config ≡ f.config))
  unfolding post_settings
  settings_applied s f net cap_file r valid on text fits back =
      let ok = Reachable-IsCurrent p tokens key r in
      let (s', e, ok') = handle_event-IsCurrent p tokens key s ok (settings f valid) in
      let (same_config, same_network, same_file) = set_server_config_lem p f.config s e in
      let (d, has, right) =
        runs s'.daemon f.config net (validate_port tokens key f valid)
          (ok'.connected ∙ rw (same_config, same_network, on) refl) in
      let (again, from, restored) = start-saved s f.config cap_file text fits back in
      (
        rw valid refl,
        (
          s',
          d,
          again,
          e,
          same_config,
          has,
          right,
          ok'.alone ∙ ap ids has,
          ap (λ (file : Option Bytes). start p file cap_file) same_file ∙ from,
          restored,
        ),
      )

  given :
      (conn : ℕ) (s : Control) (d : Option Daemon) (conns : Option ℕ)
      → HasChannel d conns
      → running s.out ≡ ids d
      → (s' : Control) × (give_client conn d conns s ≡ some s')
        × (((d ≡ none) × (s' ≡ record s { out = closed conn ∷ s.out }))
            ⊎ ((d' : Daemon) × (d ≡ some d')
                × (running s.out ≡ d'.id ∷ [])
                × (s' ≡ record s { out = handed d'.client_conns conn ∷ s.out })))
  unfolding give_client output
  given conn s none conns h alone = (output (closed conn) s, refl, inl (refl, refl))
  given conn s (some d) none h alone = cc h
  given conn s (some d) (some chan) h alone =
      (output (handed chan conn) s, refl, inr (d, refl, alone, cc h))

  -- In a reachable state a client of the web interface is handed to the only proxy that runs,
  -- which has the connector of the present configuration and network, or its connection is closed
  -- if none is wanted; nothing else changes.
  client_given :
      (conn : ℕ) (s : Control)
      → Reachable p tokens key s
      → (s' : Control) × (handle_event p (client_conn conn) s ≡ some s')
        × (((wanted p s.config s.ip_network ≡ none) × (s' ≡ record s { out = closed conn ∷ s.out }))
            ⊎ ((d : Daemon) × (s.daemon ≡ some d)
                × (wanted p s.config s.ip_network ≡ some d.connector)
                × (running s.out ≡ d.id ∷ [])
                × (s' ≡ record s { out = handed d.client_conns conn ∷ s.out })))
  unfolding handle_event
  client_given conn s r =
      let ok = Reachable-IsCurrent p tokens key r in
      let (s', e, cases) = given conn s s.daemon s.daemon_conns ok.reachable ok.alone in
      (
        s',
        e,
        elim cases [
          | inl (off, same) ↦ inl (sym ok.connected ∙ rw off refl, same)
          | inr (d, on, alone, same) ↦ inr (d, on, sym ok.connected ∙ rw on refl, alone, same)
        ],
      )
