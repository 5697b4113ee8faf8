-- ===== src/Server/Websocket.antt =====
-- server/websocket.go: the channels of the connected clients, their subscriptions and the broadcasts.
pub mod Requests
pub mod Subscriptions
pub mod Tidy
pub mod Reachability
pub mod Broadcast
pub mod Race
use organic_blockbook.Prelude.{
  ℕ, zero, suc, ◌+◌, ◌-◌, Bool, true, false, ltb, ◌==◌, if◌then◌else◌, List, [], ◌∷◌, ◌++◌, Option,
  none, some, length,
}
use organic_blockbook.Prelude.Bytes.{Bytes, bytes_eq}
use organic_blockbook.Prelude.Maps.{Map, lookup, insert, delete}
use organic_blockbook.Server.InputLimits.{LimitError}

abbrev pub out_channel_size : ℕ
out_channel_size = 16

-- What a request is refused for; `internal_error` stands for a panic of its handler.
pub data RequestError : Type 0 where
  bad_params unknown_method internal_error query_failed : RequestError
  address_too_long bad_address : RequestError
  limit_exceeded : LimitError → RequestError

-- The payload of a response: what it is about, and the values in it.
pub data Data : Type 0 where
  subscription_response : Bool → Data
  new_block : ℕ → Bytes → Data
  new_tx : Bytes → Bytes → Data
  result_error : RequestError → Data
  other_result : Bytes → Data

pub record WebsocketRes : Type 0 where
  pub id : Bytes
  pub data_ : Data

-- A channel as the server sees it: whether it is closed, with which its `done` is closed too, and
-- what waits in the buffer of `out`.
pub record WebsocketChannel : Type 0 where
  pub closed : Bool
  pub out : List WebsocketRes

-- The server, with the channels that its pointers point to: a pointer is the key of a channel. The
-- number of clients is the gauge of the metrics.
pub record WebsocketServer : Type 0 where
  pub channels : Bytes → WebsocketChannel
  pub new_block_subscriptions : Map Bytes
  pub address_subscriptions : Map (Map Bytes)
  pub clients : ℕ

-- `*c = ch`
unfoldable pub set_channel : Bytes → WebsocketChannel → WebsocketServer → WebsocketServer
set_channel c ch s = record s { channels = λ d. if bytes_eq c d then ch else s.channels d }

unfoldable pub is_alive : Bytes → WebsocketServer → Bool
is_alive c s = if (s.channels c).closed then false else true

-- enqueueResponse: the answer, and the server. The buffer of a slow client is full, and the message
-- is dropped.
unfoldable pub enqueue_response : Bytes → WebsocketRes → WebsocketServer → Bool × WebsocketServer
unfolding is_alive set_channel
enqueue_response c response s =
    if is_alive c s
    then (if ltb (length (s.channels c).out) out_channel_size
        then (
          true,
          set_channel c (record (s.channels c) { out = (s.channels c).out ++ response ∷ [] }) s,
        )
        else (false, s))
    else (false, s)

unfoldable pub subscribe_new_block : Bytes → Bytes → WebsocketServer → WebsocketServer
subscribe_new_block c id s = record s {
  new_block_subscriptions = insert c id s.new_block_subscriptions;
}

unfoldable pub unsubscribe_new_block : Bytes → WebsocketServer → WebsocketServer
unsubscribe_new_block c s = record s {
  new_block_subscriptions = delete c s.new_block_subscriptions;
}

-- The loop of unsubscribeAddresses; no round depends on another, in whatever order Go takes them.
unfoldable pub unsubscribed : Bytes → Map (Map Bytes) → Map (Map Bytes)
unsubscribed c [] = []
unsubscribed c ((address, subscribers) ∷ m) =
    let left = delete c subscribers in
    let rest = unsubscribed c m in if length left == 0 then rest else (address, left) ∷ rest

unfoldable pub unsubscribe_addresses : Bytes → WebsocketServer → WebsocketServer
unfolding unsubscribed
unsubscribe_addresses c s = record s {
  address_subscriptions = unsubscribed c s.address_subscriptions;
}

abbrev pub subscribers_of : Option (Map Bytes) → Map Bytes
subscribers_of none = []
subscribers_of (some subs) = subs

-- The loop of subscribeAddresses.
unfoldable pub subscribed : Bytes → Bytes → List Bytes → Map (Map Bytes) → Map (Map Bytes)
subscribed c id [] m = m
subscribed c id (desc ∷ descs) m =
    subscribed c id descs (insert desc (insert c id (subscribers_of (lookup desc m))) m)

unfoldable pub subscribe_addresses : Bytes → List Bytes → Bytes → WebsocketServer → WebsocketServer
unfolding unsubscribe_addresses subscribed
subscribe_addresses c descs id s =
    let s' = unsubscribe_addresses c s in
    record s' { address_subscriptions = subscribed c id descs s'.address_subscriptions }

unfoldable pub on_connect : WebsocketServer → WebsocketServer
on_connect s = record s { clients = s.clients + 1 }

unfoldable pub on_disconnect : Bytes → WebsocketServer → WebsocketServer
unfolding unsubscribe_new_block unsubscribe_addresses
on_disconnect c s =
    let s' = unsubscribe_addresses c (unsubscribe_new_block c s) in
    record s' { clients = s'.clients - 1 }

-- closeChannel: the flag is compared and swapped, so that only the first call does anything.
unfoldable pub close_channel : Bytes → WebsocketServer → WebsocketServer
unfolding is_alive set_channel on_disconnect
close_channel c s =
    if is_alive c s
    then on_disconnect c (set_channel c (record (s.channels c) { closed = true }) s)
    else s

-- ServeHTTP after the upgrade: a new channel, its pointer is one that no channel has had.
unfoldable pub connect : Bytes → WebsocketServer → WebsocketServer
unfolding set_channel on_connect
connect c s = on_connect (set_channel c (record { closed = false; out = [] }) s)

-- The loop of a broadcast over a map of subscriptions, in the order in which Go takes its entries.
unfoldable pub broadcast : Data → Map Bytes → WebsocketServer → WebsocketServer
unfolding is_alive enqueue_response
broadcast d [] s = s
broadcast d ((c, id) ∷ m) s =
    broadcast d m
      (if is_alive c s then (enqueue_response c (record { id = id; data_ = d }) s).1 else s)

unfoldable pub on_new_block : Bytes → ℕ → WebsocketServer → WebsocketServer
unfolding broadcast
on_new_block hash height s = broadcast (new_block height hash) s.new_block_subscriptions s

-- OnNewTxAddr; the parser's addresses of a descriptor, and the transaction of the API, are given,
-- `none` is an error. Between the two locks the server may go on to `later`.
unfoldable pub on_new_tx_addr :
    Option (List Bytes) → Option Bytes → Bytes → WebsocketServer → WebsocketServer → WebsocketServer
unfolding broadcast
on_new_tx_addr addresses tx desc s later = elim (lookup desc s.address_subscriptions) [
  | none ↦ later
  | some _ ↦ elim addresses [
    | none ↦ later
    | some [] ↦ later
    | some (_ ∷ _ ∷ _) ↦ later
    | some (address ∷ []) ↦ elim tx [
      | none ↦ later
      | some atx ↦
          broadcast (new_tx address atx) (subscribers_of (lookup desc later.address_subscriptions))
            later
    ]
  ]
]
