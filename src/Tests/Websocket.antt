-- ===== src/Tests/Websocket.antt =====
-- The theorems on the websocket server at a server with a client or two.
use organic_blockbook.Prelude.{◌≡◌, refl, false, if◌then◌else◌, [], ◌∷◌, Option, none, some}
use organic_blockbook.Prelude.Bytes.{Bytes, bytes_eq}
use organic_blockbook.Prelude.Maps.{Map, lookup}
use organic_blockbook.Server.Websocket.{
  new_block, WebsocketServer, is_alive, subscribe_new_block, subscribe_addresses, close_channel,
  connect, on_connect, set_channel, broadcast, on_new_block,
}
use organic_blockbook.Server.Websocket.Requests.{Message, text, new_block_on, on_message}
use organic_blockbook.Server.Websocket.Subscriptions.{
  subscription, is_among, subscribe_addresses_lem,
}
use organic_blockbook.Server.Websocket.Broadcast.{delivered, broadcast_lem}
use organic_blockbook.Server.Websocket.Tidy.{IsTidy}
use organic_blockbook.Server.Websocket.Reachability.{
  no_clients, Reachable, start, step, connected, received, block, write_failed, IsPunctual,
  Reachable-IsTidy,
}
use organic_blockbook.Server.Websocket.Race.{close_channel_race}

abbrev client : Bytes
client = 1 ∷ []

abbrev request_id : Bytes
request_id = 7 ∷ []

abbrev any_address : Bytes → Option Bytes
any_address a = some a

abbrev with_client : WebsocketServer
with_client = connect client no_clients

abbrev subscribing : Message any_address
subscribing = text (some (request_id, [], new_block_on))

abbrev with_subscriber : WebsocketServer
with_subscriber = on_message any_address client subscribing with_client

with_subscriber-Reachable :
    Reachable any_address [] (close_channel client (on_new_block (9 ∷ []) 5 with_subscriber))
unfolding is_alive connect on_connect set_channel bytes_eq
with_subscriber-Reachable =
    step [] [] (on_new_block (9 ∷ []) 5 with_subscriber) _
      (step [] [] with_subscriber _
        (step [] [] with_client _
          (step [] [] no_clients _ start (connected client [] no_clients refl))
          (received client subscribing [] with_client))
        (block (9 ∷ []) 5 [] with_subscriber))
      (write_failed client [] (on_new_block (9 ∷ []) 5 with_subscriber))

Reachable-IsTidy_example :
    IsTidy (IsPunctual []) (close_channel client (on_new_block (9 ∷ []) 5 with_subscriber))
Reachable-IsTidy_example =
    Reachable-IsTidy any_address [] (close_channel client (on_new_block (9 ∷ []) 5 with_subscriber))
      with_subscriber-Reachable

subscribe_addresses_lem_example :
    subscription client
      (5 ∷ [])
      (subscribe_addresses client ((5 ∷ []) ∷ []) request_id with_client).address_subscriptions
    ≡ (if bytes_eq client client
        then (if is_among (5 ∷ []) ((5 ∷ []) ∷ []) then some request_id else none)
        else subscription client (5 ∷ []) with_client.address_subscriptions)
unfolding connect on_connect set_channel
subscribe_addresses_lem_example =
    subscribe_addresses_lem client request_id ((5 ∷ []) ∷ []) with_client tt client (5 ∷ [])

abbrev one_subscriber : Map Bytes
one_subscriber = (client, request_id) ∷ []

broadcast_lem_example :
    (broadcast (new_block 5 (9 ∷ [])) one_subscriber with_client).channels client
    ≡ delivered (new_block 5 (9 ∷ [])) (lookup client one_subscriber) (with_client.channels client)
unfolding lookup
broadcast_lem_example =
    broadcast_lem (new_block 5 (9 ∷ [])) one_subscriber with_client client (refl, tt)

close_channel_race_example :
    (is_alive client (
        close_channel client
          (subscribe_new_block client request_id (close_channel client with_client)))
      ≡ false)
    × (lookup client
          (close_channel client (
            subscribe_new_block client request_id
              (close_channel client with_client))).new_block_subscriptions
        ≡ some request_id)
close_channel_race_example = close_channel_race client request_id with_client
