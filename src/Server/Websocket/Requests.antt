-- ===== src/Server/Websocket/Requests.antt =====
-- server/websocket.go: what the input loop does with the messages of a client.
use organic_blockbook.Prelude.{
  ℕ, true, false, ltb, if◌then◌else◌, List, [], ◌∷◌, Option, none, some, length,
}
use organic_blockbook.Prelude.Int.{pos}
use organic_blockbook.Prelude.Bytes.{Bytes}
use organic_blockbook.Prelude.Options.{Result, ok, err}
use organic_blockbook.Server.InputLimits.{
  validate_websocket_address_count, validate_websocket_request_metadata,
}
use organic_blockbook.Server.Websocket.{
  RequestError, bad_params, unknown_method, internal_error, query_failed, address_too_long,
  bad_address, limit_exceeded, Data, subscription_response, result_error, other_result,
  WebsocketServer, enqueue_response, subscribe_new_block, unsubscribe_new_block,
  subscribe_addresses, unsubscribe_addresses, close_channel,
}

abbrev pub max_address_length : ℕ
max_address_length = 256

unfoldable pub validate_address_length : Bytes → Option RequestError
validate_address_length address =
    if ltb max_address_length (length address) then some address_too_long else none

-- The loop of unmarshalAddresses; the parser's descriptor of an address is a parameter.
unfoldable pub addr_descs : (Bytes → Option Bytes) → List Bytes → Result RequestError (List Bytes)
unfolding validate_address_length
addr_descs parse [] = ok []
addr_descs parse (a ∷ rest_of) =
    let rest = addr_descs parse rest_of in
    elim (validate_address_length a) [
      | some e ↦ err e
      | none ↦ elim (parse a) [
        | none ↦ err bad_address
        | some ad ↦ elim rest [ err e ↦ err e | ok ads ↦ ok (ad ∷ ads) ]
      ]
    ]

-- `none` stands for parameters that are not those of the method.
unfoldable pub unmarshal_addresses :
    (Bytes → Option Bytes) → Option (List Bytes) → Result RequestError (List Bytes)
unfolding addr_descs
unmarshal_addresses parse none = err bad_params
unmarshal_addresses parse (some addresses) =
    elim (validate_websocket_address_count (pos (length addresses))) [
      | some e ↦ err (limit_exceeded e)
      | none ↦ addr_descs parse addresses
    ]

-- The answer of a method that only reads: its data, nil, an error, or a panic.
pub data Answer : Type 0 where
  data_of : Bytes → Answer
  nil_data : Answer
  failed : Answer
  panicked : Answer

-- The methods of requestHandlers that change the subscriptions, and all others.
pub data Method : Type 0 where
  new_block_on new_block_off addresses_off : Method
  addresses_on : Option (List Bytes) → Method
  query : Answer → Method
  no_method : Method

unfoldable pub answer_data : Answer → Option Data
answer_data (data_of b) = some (other_result b)
answer_data nil_data = none
answer_data failed = some (result_error query_failed)
answer_data panicked = some (result_error internal_error)

module _ (parse : Bytes → Option Bytes) where
  -- The handler of a method: the data of the response, and the server.
  unfoldable pub handle : Bytes → Bytes → Method → WebsocketServer → Option Data × WebsocketServer
  unfolding answer_data unmarshal_addresses
  handle c id new_block_on s = (some (subscription_response true), subscribe_new_block c id s)
  handle c id new_block_off s = (some (subscription_response false), unsubscribe_new_block c s)
  handle c id addresses_off s = (some (subscription_response false), unsubscribe_addresses c s)
  handle c id (addresses_on params) s = elim (unmarshal_addresses parse params) [
    | err e ↦ (some (result_error e), s)
    | ok descs ↦ (some (subscription_response true), subscribe_addresses c descs id s)
  ]
  handle c id (query a) s = (answer_data a, s)
  handle c id no_method s = (some (result_error unknown_method), s)

  -- nil data means no response
  unfoldable pub send_response : Bytes → Bytes → Option Data × WebsocketServer → WebsocketServer
  send_response c id (none, s) = s
  send_response c id (some d, s) = (enqueue_response c (record { id = id; data_ = d }) s).1

  unfoldable pub on_request : Bytes → Bytes → Method → WebsocketServer → WebsocketServer
  unfolding handle send_response
  on_request c id m s = send_response c id (handle c id m s)

  -- What ReadMessage gives: an error, or a message of one of the types. A text is not JSON of a
  -- request, or it has an id, the name of a method and what the method's parameters are.
  pub data Message : Type 0 where
    read_error binary ping close pong : Message
    text : Option (Bytes × Bytes × Method) → Message

  -- One round of inputLoop.
  unfoldable pub on_message : Bytes → Message → WebsocketServer → WebsocketServer
  unfolding on_request
  on_message c read_error s = close_channel c s
  on_message c binary s = close_channel c s
  on_message c ping s = s
  on_message c close s = close_channel c s
  on_message c pong s = s
  on_message c (text none) s = close_channel c s
  on_message c (text (some (id, method, m))) s =
      elim (validate_websocket_request_metadata id method) [
        | some e ↦ close_channel c s
        | none ↦ on_request c id m s
      ]
