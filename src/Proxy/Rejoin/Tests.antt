-- ===== src/Proxy/Rejoin/Tests.antt =====
-- A client that joins again, with the in-memory store.
use irc_idler.Prelude.{[], ◌∷◌, Bytes, All, some, true, ◌≡◌, ◌⊎◌, refl, sym}
use mathlib.Core.Path.{subst}
use irc_idler.State.Session.Total.{IsIndexable}
use irc_idler.Storage.Ephemeral.{ephemeral, new_store}
use irc_idler.Storage.Ephemeral.Meets.{ephemeral_laws, ephemeral_stores, new_store_empty}
use irc_idler.Proxy.World.{Env, World, empty_connection}
use irc_idler.Proxy.Client.{rejoin_channel}
use irc_idler.Proxy.Run.{new_proxy}
use irc_idler.Proxy.Rejoin.{IsRejoined, IsCutShort, rejoin_channel_lem}

abbrev ready : Env
ready = record { store = ephemeral; writes = λ done id m. true; order = λ done names. names }

abbrev chan : Bytes
chan = b'#' ∷ b'c' ∷ []

abbrev present : World ready.store.State
present = record (new_proxy new_store) {
  client = record empty_connection { rwc = some 1; chan = some 1 };
}

rejoin_channel_lem_example :
    (w' : World ready.store.State) × (rejoin_channel ready chan present ≡ some (tt, w'))
    × (IsRejoined ready ephemeral_laws 1 chan present w'
        ⊎ IsCutShort ready ephemeral_laws 1 chan present w')
unfolding new_proxy
rejoin_channel_lem_example =
    rejoin_channel_lem ready ephemeral_laws 1 chan present (refl, refl)
      (ephemeral_stores.0 new_store) (subst (All IsIndexable) (sym (new_store_empty chan)) tt)
