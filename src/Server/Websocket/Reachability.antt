-- ===== src/Server/Websocket/Reachability.antt =====
-- The server as a state machine, and what holds in every state that it reaches.
use organic_blockbook.Prelude.{
  ℕ, ◌≡◌, refl, ap, arith, true, false, List, [], ◌∷◌, Option, none, some, length, Bool,
  if◌then◌else◌, Option-cases, Bool-cases, inl, inr,
}
use organic_blockbook.Prelude.Bytes.{Bytes, bytes_eq, bytes_eq_refl}
use organic_blockbook.Prelude.Maps.{lookup}
use organic_blockbook.Prelude.Options.{Result-cases}
use organic_blockbook.Server.Websocket.{
  Data, WebsocketRes, WebsocketServer, set_channel, is_alive, enqueue_response, close_channel,
  connect, on_new_block, on_new_tx_addr,
}
use organic_blockbook.Server.InputLimits.{validate_websocket_request_metadata}
use organic_blockbook.Server.Websocket.Requests.{
  Method, new_block_on, new_block_off, addresses_off, addresses_on, query, no_method, Message,
  read_error, binary, ping, close, pong, text, handle, send_response, on_request, on_message,
  unmarshal_addresses,
}
use organic_blockbook.Server.Websocket.Subscriptions.{subscription}
use organic_blockbook.Server.Websocket.Tidy.{
  IsTidy, IsTidy-fewer, set_channel-IsTidy, enqueue_response-IsTidy, on_new_block-IsTidy,
  on_new_tx_addr-IsTidy,
}
use organic_blockbook.Server.Websocket.Tidy.Subscribing.{
  subscribe_new_block-IsTidy, unsubscribe_new_block-IsTidy, unsubscribe_addresses-IsTidy,
  subscribe_addresses-IsTidy, close_channel-IsTidy, connect-IsTidy,
}

-- outputLoop takes the first message of the buffer.
unfoldable pub take_out : Bytes → WebsocketServer → WebsocketServer
unfolding set_channel
take_out c s = elim (s.channels c).out [
  | [] ↦ s
  | m ∷ ms ↦ set_channel c (record (s.channels c) { out = ms }) s
]

abbrev pub no_clients : WebsocketServer
no_clients = record {
  channels = λ c. record { closed = true; out = [] };
  new_block_subscriptions = [];
  address_subscriptions = [];
  clients = 0;
}

-- The channels of which a request was handled when they were closed already: the input loop looks
-- neither before a request nor while it handles it whether its channel is closed.
abbrev pub note_late : Bytes → WebsocketServer → List Bytes → List Bytes
note_late c s late = if is_alive c s then late else c ∷ late

-- One step of the server, with the channels that were late: a client connects, under a pointer that is
-- not in use; a message is handled; the handler of a request runs, and at any later time a response is
-- enqueued; the output loop sends a message, or closes the channel when it cannot; a block or a
-- transaction is broadcast. The handler of a request and closeChannel take one step each.
pub data Step (parse : Bytes → Option Bytes)
    : List Bytes → WebsocketServer → List Bytes → WebsocketServer → Type 0 where
  connected :
      (c : Bytes) (late : List Bytes) (s : WebsocketServer)
      → is_alive c s ≡ false
      → Step parse late s late (connect c s)
  received :
      (c : Bytes) (m : Message parse) (late : List Bytes) (s : WebsocketServer)
      → Step parse late s (note_late c s late) (on_message parse c m s)
  handled :
      (c id : Bytes) (m : Method) (late : List Bytes) (s : WebsocketServer)
      → Step parse late s (note_late c s late) (handle parse c id m s).1
  answered :
      (c : Bytes) (r : WebsocketRes) (late : List Bytes) (s : WebsocketServer)
      → Step parse late s late (enqueue_response c r s).1
  sent :
      (c : Bytes) (late : List Bytes) (s : WebsocketServer) → Step parse late s late (take_out c s)
  write_failed :
      (c : Bytes) (late : List Bytes) (s : WebsocketServer)
      → Step parse late s late (close_channel c s)
  block :
      (hash : Bytes) (height : ℕ) (late : List Bytes) (s : WebsocketServer)
      → Step parse late s late (on_new_block hash height s)
  transaction :
      (addresses : Option (List Bytes)) (tx : Option Bytes) (desc : Bytes) (late : List Bytes)
      (before s : WebsocketServer)
      → Step parse late s late (on_new_tx_addr addresses tx desc before s)

pub data Reachable (parse : Bytes → Option Bytes) : List Bytes → WebsocketServer → Type 0 where
  start : Reachable parse [] no_clients
  step :
      (late late' : List Bytes) (s s' : WebsocketServer)
      → Reachable parse late s
      → Step parse late s late' s'
      → Reachable parse late' s'

-- A channel that was never late.
abbrev pub IsPunctual : List Bytes → Bytes → Type 0
IsPunctual [] c = Unit
IsPunctual (d ∷ late) c = (bytes_eq d c ≡ false) × IsPunctual late c

take_out-IsTidy :
    (P : Bytes → Type 0) (c : Bytes) (s : WebsocketServer) → IsTidy P s → IsTidy P (take_out c s)
unfolding take_out set_channel
take_out-IsTidy P c s h = by_buffer (s.channels c).out refl
  where
    by_buffer :
        (ms : List WebsocketRes)
        → (s.channels c).out ≡ ms
        → IsTidy P
            (elim ms [ [] ↦ s | m ∷ ms ↦ set_channel c (record (s.channels c) { out = ms }) s ])
    by_buffer [] e = h
    by_buffer (m ∷ ms) e =
        set_channel-IsTidy P c (record (s.channels c) { out = ms }) s refl
          (omega (arith, ap length e, h.bounded c)) h

module _ (parse : Bytes → Option Bytes) (P : Bytes → Type 0) where
  handle-IsTidy :
      (c id : Bytes) (m : Method) (s : WebsocketServer)
      → (P c → (s.channels c).closed ≡ false)
      → IsTidy P s
      → IsTidy P (handle parse c id m s).1
  unfolding handle
  handle-IsTidy c id new_block_on s opened h = subscribe_new_block-IsTidy P c id s opened h
  handle-IsTidy c id new_block_off s opened h = unsubscribe_new_block-IsTidy P c s h
  handle-IsTidy c id addresses_off s opened h = unsubscribe_addresses-IsTidy P c s h
  handle-IsTidy c id (addresses_on params) s opened h =
      elim (Result-cases (unmarshal_addresses parse params)) [
        | inl (descs, e) ↦ rw (e, handle) (subscribe_addresses-IsTidy P c id descs s opened h)
        | inr (x, e) ↦ rw (e, handle) h
      ]
  handle-IsTidy c id (query a) s opened h = h
  handle-IsTidy c id no_method s opened h = h

  send_response-IsTidy :
      (c id : Bytes) (o : Option Data) (s : WebsocketServer)
      → IsTidy P s
      → IsTidy P (send_response parse c id (o, s))
  unfolding send_response
  send_response-IsTidy c id none s h = h
  send_response-IsTidy c id (some d) s h =
      enqueue_response-IsTidy P c (record { id = id; data_ = d }) s h

  on_message-IsTidy :
      (c : Bytes) (m : Message parse) (s : WebsocketServer)
      → (P c → (s.channels c).closed ≡ false)
      → IsTidy P s
      → IsTidy P (on_message parse c m s)
  unfolding on_message on_request
  on_message-IsTidy c read_error s opened h = close_channel-IsTidy P c s h
  on_message-IsTidy c binary s opened h = close_channel-IsTidy P c s h
  on_message-IsTidy c ping s opened h = h
  on_message-IsTidy c close s opened h = close_channel-IsTidy P c s h
  on_message-IsTidy c pong s opened h = h
  on_message-IsTidy c (text none) s opened h = close_channel-IsTidy P c s h
  on_message-IsTidy c (text (some (id, method, m))) s opened h =
      let r = handle parse c id m s in
      elim (Option-cases (validate_websocket_request_metadata id method)) [
        | inr (x, e) ↦ rw (e, on_message) (close_channel-IsTidy P c s h)
        | inl e ↦
            rw (e, on_message) (send_response-IsTidy c id r.0 r.1 (handle-IsTidy c id m s opened h))
      ]

alive_opened :
    (c : Bytes) (s : WebsocketServer) → is_alive c s ≡ true → (s.channels c).closed ≡ false
unfolding is_alive
alive_opened c s e = ground (arith, e)

-- A request of a closed channel makes it late.
punctual_opened :
    (c : Bytes) (late : List Bytes) (s : WebsocketServer)
    → IsPunctual (note_late c s late) c
    → (s.channels c).closed ≡ false
punctual_opened c late s p = elim (Bool-cases (is_alive c s)) [
  | inl alive ↦ alive_opened c s alive
  | inr dead ↦ absurd (own_key (rw dead at p))
]
  where
    own_key : IsPunctual (c ∷ late) c → ⊥
    own_key (other, p) = ground (arith, bytes_eq_refl c, other)

note_late-IsTidy :
    (c : Bytes) (late : List Bytes) (s : WebsocketServer)
    → IsTidy (IsPunctual late) s
    → IsTidy (IsPunctual (note_late c s late)) s
note_late-IsTidy c late s h =
    IsTidy-fewer (IsPunctual late) (IsPunctual (note_late c s late)) s (fewer (is_alive c s)) h
  where
    fewer : (b : Bool) (d : Bytes) → IsPunctual (if b then late else c ∷ late) d → IsPunctual late d
    fewer true d p = p
    fewer false d (other, p) = p

module _ (parse : Bytes → Option Bytes) where
  Step-IsTidy :
      (late : List Bytes) (s : WebsocketServer) (late' : List Bytes) (s' : WebsocketServer)
      → Step parse late s late' s'
      → IsTidy (IsPunctual late) s
      → IsTidy (IsPunctual late') s'
  Step-IsTidy late s _ _ (connected c _ _ unused) h = connect-IsTidy (IsPunctual late) c s unused h
  Step-IsTidy late s _ _ (received c m _ _) h =
      on_message-IsTidy parse (IsPunctual (note_late c s late)) c m s (punctual_opened c late s)
        (note_late-IsTidy c late s h)
  Step-IsTidy late s _ _ (handled c id m _ _) h =
      handle-IsTidy parse (IsPunctual (note_late c s late)) c id m s (punctual_opened c late s)
        (note_late-IsTidy c late s h)
  Step-IsTidy late s _ _ (answered c r _ _) h = enqueue_response-IsTidy (IsPunctual late) c r s h
  Step-IsTidy late s _ _ (sent c _ _) h = take_out-IsTidy (IsPunctual late) c s h
  Step-IsTidy late s _ _ (write_failed c _ _) h = close_channel-IsTidy (IsPunctual late) c s h
  Step-IsTidy late s _ _ (block hash height _ _) h =
      on_new_block-IsTidy (IsPunctual late) hash height s h
  Step-IsTidy late s _ _ (transaction addresses tx desc _ before _) h =
      on_new_tx_addr-IsTidy (IsPunctual late) addresses tx desc before s h

  -- In every state that the server reaches, no buffer holds more than its size, no address stands
  -- twice in the map of subscriptions, and a closed channel is subscribed to nothing unless a
  -- request of it was handled after it was closed. The handler of a request and closeChannel count
  -- as one step each; responses may be enqueued at any later time.
  pub Reachable-IsTidy :
      (late : List Bytes) (s : WebsocketServer)
      → Reachable parse late s
      → IsTidy (IsPunctual late) s
  unfolding subscription lookup
  Reachable-IsTidy _ _ start = record {
    bounded = λ c. omega arith;
    no_blocks = λ c p e. refl;
    no_addresses = λ c a p e. refl;
    distinct = tt;
  }
  Reachable-IsTidy _ _ (step late late' s s' r st) =
      Step-IsTidy late s late' s' st (Reachable-IsTidy late s r)
