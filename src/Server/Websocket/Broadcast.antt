-- ===== src/Server/Websocket/Broadcast.antt =====
-- A broadcast reaches every subscriber that can take it, once, and no one else.
use organic_blockbook.Prelude.{
  ◌≡◌, refl, sym, ap, ◌∙◌, ltb, if◌then◌else◌, [], ◌∷◌, ◌++◌, Option, none, some, length,
  Bool-cases, inl, inr,
}
use organic_blockbook.Prelude.Bytes.{Bytes, bytes_eq, bytes_eq_iff}
use organic_blockbook.Prelude.Maps.{Map, IsMap, lookup}
use organic_blockbook.Server.Websocket.{
  out_channel_size, Data, WebsocketChannel, WebsocketServer, set_channel, is_alive,
  enqueue_response, broadcast,
}

-- What a message does to a channel that is subscribed under an id, or not at all.
unfoldable pub delivered : Data → Option Bytes → WebsocketChannel → WebsocketChannel
delivered d none ch = ch
delivered d (some id) ch =
    if ch.closed
    then ch
    else if ltb (length ch.out) out_channel_size
    then record ch { out = ch.out ++ record { id = id; data_ = d } ∷ [] }
    else ch

unfoldable pub notify : Data → Bytes → Bytes → WebsocketServer → WebsocketServer
notify d c id s =
    if is_alive c s then (enqueue_response c (record { id = id; data_ = d }) s).1 else s

notify-channel :
    (d : Data) (c id : Bytes) (s : WebsocketServer) (e : Bytes)
    → (notify d c id s).channels e
      ≡ (if bytes_eq c e then delivered d (some id) (s.channels c) else s.channels e)
unfolding notify is_alive enqueue_response set_channel delivered
notify-channel d c id s e = elim (Bool-cases (bytes_eq c e)) [
  | inl same ↦
      let there = ap s.channels ((bytes_eq_iff c e).0 same) in
      elim (Bool-cases (s.channels c).closed) [
        | inl closed ↦ simp (same, closed) (sym there)
        | inr opened ↦ elim (Bool-cases (ltb (length (s.channels c).out) out_channel_size)) [
          | inl room ↦ rw (opened, room, same)
          | inr full ↦ simp (opened, full, same) (sym there)
        ]
      ]
  | inr other ↦ elim (Bool-cases (s.channels c).closed) [
    | inl closed ↦ rw (other, closed)
    | inr opened ↦ elim (Bool-cases (ltb (length (s.channels c).out) out_channel_size)) [
      | inl room ↦ rw (opened, room, other)
      | inr full ↦ rw (opened, full, other)
    ]
  ]
]

-- Over a map of subscriptions, in which no channel stands twice, every channel gets the message at
-- most once: under its id if it is subscribed, not closed, and its buffer has room.
pub broadcast_lem :
    (d : Data) (m : Map Bytes) (s : WebsocketServer) (c : Bytes)
    → IsMap m
    → (broadcast d m s).channels c ≡ delivered d (lookup c m) (s.channels c)
unfolding broadcast delivered lookup notify
broadcast_lem d [] s c h = refl
broadcast_lem d ((e, id) ∷ m) s c (fresh, h) =
    broadcast_lem d m (notify d e id s) c h
    ∙ rw (notify-channel d e id s c) (elim (Bool-cases (bytes_eq e c)) [
      | inl same ↦
          let absent : lookup c m ≡ none =
            ap (λ i. lookup i m) (sym ((bytes_eq_iff e c).0 same)) ∙ fresh in
          rw (same, absent) (ap (delivered d (some id)) (ap s.channels ((bytes_eq_iff e c).0 same)))
      | inr other ↦ rw other
    ])
