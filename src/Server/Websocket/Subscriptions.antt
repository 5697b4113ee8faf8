-- ===== src/Server/Websocket/Subscriptions.antt =====
-- Who is subscribed to which address after subscribeAddresses and unsubscribeAddresses.
use organic_blockbook.Prelude.{
  ◌≡◌, ◌⊎◌, refl, sym, ap, ◌∙◌, arith, Bool, true, false, ◌&&◌, ◌||◌, ◌==◌, if◌then◌else◌, List, [],
  ◌∷◌, Option, none, some, length, Bool-cases, inl, inr,
}
use organic_blockbook.Prelude.Bytes.{Bytes, bytes_eq, bytes_eq_iff}
use organic_blockbook.Prelude.Maps.{
  Map, IsMap, IsMap-insert, lookup, insert, delete, lookup-insert, lookup-delete,
}
use organic_blockbook.Server.Websocket.{
  WebsocketServer, subscribers_of, subscribed, unsubscribed, subscribe_addresses,
  unsubscribe_addresses,
}

-- The id under which a channel is subscribed to an address.
unfoldable pub subscription : Bytes → Bytes → Map (Map Bytes) → Option Bytes
subscription c address m = lookup c (subscribers_of (lookup address m))

unfoldable pub is_among : Bytes → List Bytes → Bool
is_among a [] = false
is_among a (b ∷ bs) = bytes_eq b a || is_among a bs

pub no_entries {ℓ} : {V : Type ℓ} (m : Map V) (k : Bytes) → length m ≡ 0 → lookup k m ≡ none
unfolding lookup
no_entries [] k e = refl
no_entries (x ∷ m) k e = absurd (omega arith)

unsubscribed_absent :
    (c a : Bytes) (m : Map (Map Bytes)) → lookup a m ≡ none → lookup a (unsubscribed c m) ≡ none
unfolding unsubscribed lookup
unsubscribed_absent c a [] h = refl
unsubscribed_absent c a ((j, subs) ∷ m) h = elim (Bool-cases (bytes_eq j a)) [
  | inl same ↦ absurd (ground (arith, h, same))
  | inr other ↦
      let rest = unsubscribed_absent c a m (ground (arith, h, other)) in
      elim (Bool-cases (length (delete c subs) == 0)) [
        | inl e ↦ rw e rest
        | inr e ↦ rw (e, other) rest
      ]
]

pub unsubscribed-IsMap : (c : Bytes) (m : Map (Map Bytes)) → IsMap m → IsMap (unsubscribed c m)
unfolding unsubscribed
unsubscribed-IsMap c [] h = tt
unsubscribed-IsMap c ((j, subs) ∷ m) (fresh, h) = elim (Bool-cases (length (delete c subs) == 0)) [
  | inl e ↦ rw e (unsubscribed-IsMap c m h)
  | inr e ↦ rw e (unsubscribed_absent c j m fresh, unsubscribed-IsMap c m h)
]

subscription-unsubscribed :
    (c d a : Bytes) (m : Map (Map Bytes))
    → IsMap m
    → subscription d a (unsubscribed c m) ≡ (if bytes_eq c d then none else subscription d a m)
unfolding unsubscribed subscription lookup
subscription-unsubscribed c d a [] h = ground arith
subscription-unsubscribed c d a ((j, subs) ∷ m) (fresh, h) =
    let rest = subscription-unsubscribed c d a m h in
    let gone = unsubscribed_absent c a m in
    elim (Bool-cases (bytes_eq j a)) [
      | inr other ↦ elim (Bool-cases (length (delete c subs) == 0)) [
        | inl e ↦ rw (e, other) rest
        | inr e ↦ rw (e, other) rest
      ]
      | inl same ↦
          let absent : lookup a m ≡ none =
            ap (λ i. lookup i m) (sym ((bytes_eq_iff j a).0 same)) ∙ fresh in
          elim (Bool-cases (length (delete c subs) == 0)) [
            | inl e ↦
                rw (e, same, gone absent)
                  (sym (no_entries (delete c subs) d (ground (arith, e))) ∙ lookup-delete c d subs)
            | inr e ↦ rw (e, same) (lookup-delete c d subs)
          ]
    ]

subscription-subscribed :
    (c id d a : Bytes) (descs : List Bytes) (m : Map (Map Bytes))
    → subscription d a (subscribed c id descs m)
      ≡ (if bytes_eq c d && is_among a descs then some id else subscription d a m)
unfolding subscribed subscription is_among
subscription-subscribed c id d a [] m = ground arith
subscription-subscribed c id d a (desc ∷ descs) m =
    let m' = insert desc (insert c id (subscribers_of (lookup desc m))) m in
    let one : subscription d a m'
        ≡ (if bytes_eq c d && bytes_eq desc a then some id else subscription d a m) =
      entry (Bool-cases (bytes_eq desc a)) in
    subscription-subscribed c id d a descs m' ∙ rw one (ground arith)
  where
    entry :
        (bytes_eq desc a ≡ true) ⊎ (bytes_eq desc a ≡ false)
        → subscription d a (insert desc (insert c id (subscribers_of (lookup desc m))) m)
          ≡ (if bytes_eq c d && bytes_eq desc a then some id else subscription d a m)
    entry (inl same) =
        let here : lookup desc m ≡ lookup a m =
          ap (λ i. lookup i m) ((bytes_eq_iff desc a).0 same) in
        rw (lookup-insert desc a (insert c id (subscribers_of (lookup desc m))) m, same, here)
          (lookup-insert c d id (subscribers_of (lookup a m)) ∙ ground arith)
    entry (inr other) =
        rw (lookup-insert desc a (insert c id (subscribers_of (lookup desc m))) m, other)
          (ground arith)

-- After subscribeAddresses a channel is subscribed to exactly the given addresses, under the id of
-- the request, whatever it was subscribed to before, and the subscriptions of all other channels
-- are as they were. No address stands twice in the map of subscriptions before.
pub subscribe_addresses_lem :
    (c id : Bytes) (descs : List Bytes) (s : WebsocketServer)
    → IsMap s.address_subscriptions
    → (d a : Bytes)
    → subscription d a (subscribe_addresses c descs id s).address_subscriptions ≡ (
        if bytes_eq c d
        then (if is_among a descs then some id else none)
        else subscription d a s.address_subscriptions)
unfolding subscribe_addresses unsubscribe_addresses
subscribe_addresses_lem c id descs s distinct d a =
    subscription-subscribed c id d a descs (unsubscribed c s.address_subscriptions)
    ∙ rw (subscription-unsubscribed c d a s.address_subscriptions distinct) (ground arith)

pub unsubscribe_addresses_lem :
    (c : Bytes) (s : WebsocketServer)
    → IsMap s.address_subscriptions
    → (d a : Bytes)
    → subscription d a (unsubscribe_addresses c s).address_subscriptions
      ≡ (if bytes_eq c d then none else subscription d a s.address_subscriptions)
unfolding unsubscribe_addresses
unsubscribe_addresses_lem c s distinct d a =
    subscription-unsubscribed c d a s.address_subscriptions distinct

pub subscribed-IsMap :
    (c id : Bytes) (descs : List Bytes) (m : Map (Map Bytes))
    → IsMap m
    → IsMap (subscribed c id descs m)
unfolding subscribed
subscribed-IsMap c id [] m h = h
subscribed-IsMap c id (desc ∷ descs) m h =
    subscribed-IsMap c id descs (insert desc (insert c id (subscribers_of (lookup desc m))) m)
      (IsMap-insert desc (insert c id (subscribers_of (lookup desc m))) m h)
