-- ===== src/Server/Websocket/Tidy/Subscribing.antt =====
-- Subscribing, closing and connecting keep the state of the server tidy.
use organic_blockbook.Prelude.{
  ℕ, ◌-◌, ◌≤◌, ◌≡◌, sym, ap, ◌∙◌, arith, true, false, List, none, length, Bool-cases, if-cases, inl,
  inr,
}
use organic_blockbook.Prelude.Bytes.{Bytes, bytes_eq, bytes_eq_iff, bytes_eq_refl}
use organic_blockbook.Prelude.Maps.{lookup, lookup-insert, lookup-delete}
use organic_blockbook.Server.Websocket.{
  out_channel_size, WebsocketChannel, WebsocketServer, set_channel, is_alive, subscribe_new_block,
  unsubscribe_new_block, unsubscribed, unsubscribe_addresses, subscribe_addresses, on_connect,
  on_disconnect, close_channel, connect,
}
use organic_blockbook.Server.Websocket.Subscriptions.{
  subscription, unsubscribed-IsMap, subscribed-IsMap, subscribe_addresses_lem,
  unsubscribe_addresses_lem,
}
use mathlib.Core.Path.{subst}
use organic_blockbook.Server.Websocket.Tidy.{IsTidy}

module _ (P : Bytes → Type 0) where
  pub subscribe_new_block-IsTidy :
      (c id : Bytes) (s : WebsocketServer)
      → (P c → (s.channels c).closed ≡ false)
      → IsTidy P s
      → IsTidy P (subscribe_new_block c id s)
  unfolding subscribe_new_block
  subscribe_new_block-IsTidy c id s opened h = record {
    bounded = h.bounded;
    no_blocks = λ d p closed.
        lookup-insert c d id s.new_block_subscriptions ∙ elim (Bool-cases (bytes_eq c d)) [
          | inl e ↦ absurd (clash d p closed e)
          | inr e ↦ rw e (h.no_blocks d p closed)
        ];
    no_addresses = h.no_addresses;
    distinct = h.distinct;
  }
    where
      clash : (d : Bytes) → P d → (s.channels d).closed ≡ true → bytes_eq c d ≡ true → ⊥
      clash d p closed e =
          let eq = (bytes_eq_iff c d).0 e in
          let same = ap (λ b. (s.channels b).closed) eq in
          let open' = opened (subst P (sym eq) p) in ground (arith, same, open', closed)

  pub unsubscribe_new_block-IsTidy :
      (c : Bytes) (s : WebsocketServer) → IsTidy P s → IsTidy P (unsubscribe_new_block c s)
  unfolding unsubscribe_new_block
  unsubscribe_new_block-IsTidy c s h = record {
    bounded = h.bounded;
    no_blocks = λ d p closed.
        lookup-delete c d s.new_block_subscriptions ∙ rw (h.no_blocks d p closed) (ground arith);
    no_addresses = h.no_addresses;
    distinct = h.distinct;
  }

  pub unsubscribe_addresses-IsTidy :
      (c : Bytes) (s : WebsocketServer) → IsTidy P s → IsTidy P (unsubscribe_addresses c s)
  unfolding unsubscribe_addresses
  unsubscribe_addresses-IsTidy c s h = record {
    bounded = h.bounded;
    no_blocks = h.no_blocks;
    no_addresses = λ d a p closed.
        unsubscribe_addresses_lem c s h.distinct d a
        ∙ rw (h.no_addresses d a p closed) (ground arith);
    distinct = unsubscribed-IsMap c s.address_subscriptions h.distinct;
  }

  pub subscribe_addresses-IsTidy :
      (c id : Bytes) (descs : List Bytes) (s : WebsocketServer)
      → (P c → (s.channels c).closed ≡ false)
      → IsTidy P s
      → IsTidy P (subscribe_addresses c descs id s)
  unfolding subscribe_addresses unsubscribe_addresses
  subscribe_addresses-IsTidy c id descs s opened h = record {
    bounded = h.bounded;
    no_blocks = h.no_blocks;
    no_addresses = λ d a p closed.
        subscribe_addresses_lem c id descs s h.distinct d a ∙ elim (Bool-cases (bytes_eq c d)) [
          | inl e ↦
              let eq = (bytes_eq_iff c d).0 e in
              let same = ap (λ b. (s.channels b).closed) eq in
              let open' = opened (subst P (sym eq) p) in
              absurd (ground (arith, same, open', closed))
          | inr e ↦ rw e (h.no_addresses d a p closed)
        ];
    distinct =
        subscribed-IsMap c id descs (unsubscribed c s.address_subscriptions)
          (unsubscribed-IsMap c s.address_subscriptions h.distinct);
  }

  -- A channel that is subscribed to nothing is closed.
  pub close-IsTidy :
      (c : Bytes) (s : WebsocketServer)
      → IsTidy P s
      → lookup c s.new_block_subscriptions ≡ none
      → ((a : Bytes) → subscription c a s.address_subscriptions ≡ none)
      → IsTidy P (set_channel c (record (s.channels c) { closed = true }) s)
  unfolding set_channel
  close-IsTidy c s h no_blocks no_addresses = record {
    bounded = λ d.
        if-cases (λ (ch : WebsocketChannel). length ch.out ≤ out_channel_size) (bytes_eq c d) _ _
          (λ e. h.bounded c) (λ e. h.bounded d);
    no_blocks = λ d p closed. elim (Bool-cases (bytes_eq c d)) [
      | inl e ↦
          ap (λ b. lookup b s.new_block_subscriptions) (sym ((bytes_eq_iff c d).0 e)) ∙ no_blocks
      | inr e ↦ h.no_blocks d p (rw e at closed)
    ];
    no_addresses = λ d a p closed. elim (Bool-cases (bytes_eq c d)) [
      | inl e ↦
          ap (λ b. subscription b a s.address_subscriptions) (sym ((bytes_eq_iff c d).0 e))
          ∙ no_addresses a
      | inr e ↦ h.no_addresses d a p (rw e at closed)
    ];
    distinct = h.distinct;
  }

  -- The gauge is not part of what is tidy.
  pub clients-IsTidy :
      (n : ℕ) (s : WebsocketServer) → IsTidy P s → IsTidy P (record s { clients = n })
  clients-IsTidy n s h = record {
    bounded = h.bounded;
    no_blocks = h.no_blocks;
    no_addresses = h.no_addresses;
    distinct = h.distinct;
  }

  pub close_channel-IsTidy :
      (c : Bytes) (s : WebsocketServer) → IsTidy P s → IsTidy P (close_channel c s)
  unfolding close_channel on_disconnect set_channel unsubscribe_addresses unsubscribe_new_block
  close_channel-IsTidy c s h =
      if-cases (IsTidy P) (is_alive c s) _ _
        (λ alive.
          let s' = unsubscribe_addresses c (unsubscribe_new_block c s) in
          let tidy =
            unsubscribe_addresses-IsTidy c (unsubscribe_new_block c s)
              (unsubscribe_new_block-IsTidy c s h) in
          clients-IsTidy (s.clients - 1)
            (set_channel c (record (s'.channels c) { closed = true }) s')
            (close-IsTidy c s' tidy
              (lookup-delete c c s.new_block_subscriptions ∙ rw (bytes_eq_refl c))
              λ a.
                unsubscribe_addresses_lem c (unsubscribe_new_block c s) h.distinct c a
                ∙ rw (bytes_eq_refl c)))
        (λ dead. h)

  pub connect-IsTidy :
      (c : Bytes) (s : WebsocketServer) → is_alive c s ≡ false → IsTidy P s → IsTidy P (connect c s)
  unfolding connect on_connect set_channel
  connect-IsTidy c s unused h = record {
    bounded = λ d.
        if-cases (λ (ch : WebsocketChannel). length ch.out ≤ out_channel_size) (bytes_eq c d) _ _
          (λ e. omega arith) (λ e. h.bounded d);
    no_blocks = λ d p closed. elim (Bool-cases (bytes_eq c d)) [
      | inl e ↦ ground (arith, rw e at closed)
      | inr e ↦ h.no_blocks d p (rw e at closed)
    ];
    no_addresses = λ d a p closed. elim (Bool-cases (bytes_eq c d)) [
      | inl e ↦ ground (arith, rw e at closed)
      | inr e ↦ h.no_addresses d a p (rw e at closed)
    ];
    distinct = h.distinct;
  }
