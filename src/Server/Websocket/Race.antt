-- ===== src/Server/Websocket/Race.antt =====
-- closeChannel: only its first call does anything, and what a request does after it stays.
use organic_blockbook.Prelude.{◌≡◌, ap, ◌∙◌, false, some, Bool-cases, inl, inr}
use organic_blockbook.Prelude.Bytes.{Bytes, bytes_eq_refl}
use organic_blockbook.Prelude.Maps.{lookup, lookup-insert}
use organic_blockbook.Server.Websocket.{
  WebsocketServer, set_channel, is_alive, subscribe_new_block, unsubscribe_new_block,
  unsubscribe_addresses, on_disconnect, close_channel,
}

close_channel-closed : (c : Bytes) (s : WebsocketServer) → is_alive c (close_channel c s) ≡ false
unfolding close_channel is_alive on_disconnect set_channel unsubscribe_addresses
    unsubscribe_new_block
close_channel-closed c s = elim (Bool-cases (s.channels c).closed) [
  | inl closed ↦ simp closed
  | inr opened ↦ simp (opened, bytes_eq_refl c)
]

-- Closing a channel again changes nothing, so that its client is counted out once.
pub close_channel_twice :
    (c : Bytes) (s : WebsocketServer) → close_channel c (close_channel c s) ≡ close_channel c s
unfolding close_channel
close_channel_twice c s = simp (close_channel-closed c s)

closed-unchanged : (c : Bytes) (s : WebsocketServer) → is_alive c s ≡ false → close_channel c s ≡ s
unfolding close_channel
closed-unchanged c s dead = simp dead

-- When the output loop closes a channel while the input loop handles its request to subscribe, the
-- subscription that is made after the close stays: the channel is closed, and a further closeChannel
-- does not remove its subscription.
pub close_channel_race :
    (c id : Bytes) (s : WebsocketServer)
    → (is_alive c (close_channel c (subscribe_new_block c id (close_channel c s))) ≡ false)
      × (lookup c
            (close_channel c (subscribe_new_block c id (close_channel c s))).new_block_subscriptions
          ≡ some id)
unfolding subscribe_new_block is_alive
close_channel_race c id s =
    let t = close_channel c s in
    let dead = close_channel-closed c s in
    let same = closed-unchanged c (subscribe_new_block c id t) dead in
    (
      ap (is_alive c) same ∙ dead,
      ap (λ r. lookup c r.new_block_subscriptions) same
          ∙ lookup-insert c c id t.new_block_subscriptions
          ∙ rw (bytes_eq_refl c),
    )
