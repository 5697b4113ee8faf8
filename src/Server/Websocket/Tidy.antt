-- ===== src/Server/Websocket/Tidy.antt =====
-- What is tidy in the state of the server, and that each operation keeps it so.
pub mod Subscribing
use organic_blockbook.Prelude.{
  ℕ, ◌-◌, ◌≤◌, ◌≡◌, refl, sym, ap, ◌∙◌, arith, Bool, true, false, ltb, if◌then◌else◌, List, [], ◌∷◌,
  ◌++◌, Option, none, some, length, length-append, Bool-cases, if-cases, inl, inr,
}
use organic_blockbook.Prelude.Bytes.{Bytes, bytes_eq, bytes_eq_iff, bytes_eq_refl}
use organic_blockbook.Prelude.Maps.{Map, IsMap, lookup, lookup-insert, lookup-delete}
use organic_blockbook.Server.Websocket.{
  out_channel_size, Data, new_block, new_tx, WebsocketRes, WebsocketChannel, WebsocketServer,
  set_channel, is_alive, enqueue_response, subscribe_new_block, unsubscribe_new_block, unsubscribed,
  unsubscribe_addresses, subscribers_of, subscribe_addresses, on_connect, on_disconnect,
  close_channel, connect, broadcast, on_new_block, on_new_tx_addr,
}
use organic_blockbook.Server.Websocket.Subscriptions.{
  subscription, unsubscribed-IsMap, subscribed-IsMap, subscribe_addresses_lem,
  unsubscribe_addresses_lem,
}
use mathlib.Core.Path.{subst}

module _ (P : Bytes → Type 0) where
  -- A closed channel of the kind `P` is subscribed to nothing, no buffer holds more than it can, and no
  -- address stands twice in the map of subscriptions.
  pub record IsTidy (s : WebsocketServer) : Type 0 where
    pub bounded : (c : Bytes) → length (s.channels c).out ≤ out_channel_size
    pub no_blocks :
        (c : Bytes) → P c → (s.channels c).closed ≡ true → lookup c s.new_block_subscriptions ≡ none
    pub no_addresses :
        (c a : Bytes)
        → P c
        → (s.channels c).closed ≡ true
        → subscription c a s.address_subscriptions ≡ none
    pub distinct : IsMap s.address_subscriptions

  -- A channel is replaced by one that is closed or not as it was.
  pub set_channel-IsTidy :
      (c : Bytes) (ch : WebsocketChannel) (s : WebsocketServer)
      → ch.closed ≡ (s.channels c).closed
      → length ch.out ≤ out_channel_size
      → IsTidy s
      → IsTidy (set_channel c ch s)
  unfolding set_channel
  set_channel-IsTidy c ch s same few h = record {
    bounded =
        λ d. elim (Bool-cases (bytes_eq c d)) [ inl e ↦ rw e few | inr e ↦ rw e (h.bounded d) ];
    no_blocks = λ d p closed. h.no_blocks d p (still d closed);
    no_addresses = λ d a p closed. h.no_addresses d a p (still d closed);
    distinct = h.distinct;
  }
    where
      still :
          (d : Bytes)
          → (if bytes_eq c d then ch else s.channels d).closed ≡ true
          → (s.channels d).closed ≡ true
      still d closed = elim (Bool-cases (bytes_eq c d)) [
        | inl e ↦
            ap (λ b. (s.channels b).closed) (sym ((bytes_eq_iff c d).0 e))
            ∙ sym same
            ∙ (rw e at closed)
        | inr e ↦ rw e at closed
      ]

  pub enqueue_response-IsTidy :
      (c : Bytes) (r : WebsocketRes) (s : WebsocketServer)
      → IsTidy s
      → IsTidy (enqueue_response c r s).1
  unfolding enqueue_response
  enqueue_response-IsTidy c r s h =
      if-cases (λ (q : Bool × WebsocketServer). IsTidy q.1) (is_alive c s) _ _
        (λ alive.
          if-cases (λ (q : Bool × WebsocketServer). IsTidy q.1)
            (ltb (length (s.channels c).out) out_channel_size) _ _
            (λ room.
              set_channel-IsTidy c (record (s.channels c) { out = (s.channels c).out ++ r ∷ [] }) s
                refl (ground (arith, room, length-append (s.channels c).out (r ∷ []))) h)
            (λ full. h))
        (λ dead. h)

  pub broadcast-IsTidy :
      (d : Data) (m : Map Bytes) (s : WebsocketServer) → IsTidy s → IsTidy (broadcast d m s)
  unfolding broadcast
  broadcast-IsTidy d [] s h = h
  broadcast-IsTidy d ((c, id) ∷ m) s h =
      let r : WebsocketRes = record { id = id; data_ = d } in
      broadcast-IsTidy d m (if is_alive c s then (enqueue_response c r s).1 else s)
        (if-cases IsTidy (is_alive c s) _ _ (λ alive. enqueue_response-IsTidy c r s h) (λ dead. h))

  pub on_new_block-IsTidy :
      (hash : Bytes) (height : ℕ) (s : WebsocketServer)
      → IsTidy s
      → IsTidy (on_new_block hash height s)
  unfolding on_new_block
  on_new_block-IsTidy hash height s h =
      broadcast-IsTidy (new_block height hash) s.new_block_subscriptions s h

  pub on_new_tx_addr-IsTidy :
      (addresses : Option (List Bytes)) (tx : Option Bytes) (desc : Bytes)
      (before s : WebsocketServer)
      → IsTidy s
      → IsTidy (on_new_tx_addr addresses tx desc before s)
  unfolding on_new_tx_addr
  on_new_tx_addr-IsTidy addresses tx desc before s h =
      by_subscribers (lookup desc before.address_subscriptions) addresses tx
    where
      by_subscribers :
          (o : Option (Map Bytes)) (addresses : Option (List Bytes)) (tx : Option Bytes)
          → IsTidy (elim o [
            | none ↦ s
            | some _ ↦ elim addresses [
              | none ↦ s
              | some [] ↦ s
              | some (_ ∷ _ ∷ _) ↦ s
              | some (address ∷ []) ↦ elim tx [
                | none ↦ s
                | some atx ↦
                    broadcast
                      (new_tx address atx)
                      (subscribers_of (lookup desc s.address_subscriptions))
                      s
              ]
            ]
          ])
      by_subscribers none addresses tx = h
      by_subscribers (some _) none tx = h
      by_subscribers (some _) (some []) tx = h
      by_subscribers (some _) (some (_ ∷ _ ∷ _)) tx = h
      by_subscribers (some _) (some (a ∷ [])) none = h
      by_subscribers (some _) (some (a ∷ [])) (some atx) =
          broadcast-IsTidy (new_tx a atx) (subscribers_of (lookup desc s.address_subscriptions)) s h

-- Fewer channels are asked for.
pub IsTidy-fewer :
    (P Q : Bytes → Type 0) (s : WebsocketServer)
    → ((c : Bytes) → Q c → P c)
    → IsTidy P s
    → IsTidy Q s
IsTidy-fewer P Q s fewer h = record {
  bounded = h.bounded;
  no_blocks = λ c q closed. h.no_blocks c (fewer c q) closed;
  no_addresses = λ c a q closed. h.no_addresses c a (fewer c q) closed;
  distinct = h.distinct;
}
