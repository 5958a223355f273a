-- ===== src/Tests/Payments.antt =====
-- A payment that is called off over HTTP, and the call is sent again.
use borges_labs.Base.{◌≡◌, ◌+◌, refl, lookup, str_eq, [], ◌∷◌, Str, str}
use borges_labs.Counter.{mem_counter}
use borges_labs.Hold.{Hold, Holds, voided, key, void}
use borges_labs.Reserver.{void_hold}
use borges_labs.Gateway.Holds.{is_ulid, handle_void, HoldResponse, settled, to_hold_response}
use borges_labs.Gateway.Settled.{void_at, handle_void-again}
use borges_labs.Tests.Data.{noon, platform, org, some_hold}

abbrev payment_id : Str
payment_id = str "01HZ8Q4T7M2N9P0R3S5V6W8X0Y"

abbrev payment : Hold
payment = record some_hold { decision_id = payment_id }

abbrev payments : Holds
payments = (key org payment_id, payment) ∷ []

abbrev called_off : HoldResponse
called_off = to_hold_response platform (record payment { state = voided; voided_at = noon })

calls_off : (void_at platform mem_counter noon org payment_id ([], payments)).0 ≡ settled called_off
unfolding handle_void is_ulid void_hold void lookup str_eq key
calls_off = refl

handle_void-again_example :
    let first = void_at platform mem_counter noon org payment_id ([], payments) in
    let second = void_at platform mem_counter (noon + 5) org payment_id first.1 in
    (second.0 ≡ settled called_off) × (second.1.0 ≡ first.1.0)
handle_void-again_example =
    handle_void-again platform mem_counter noon (noon + 5) org payment_id [] payments called_off
      calls_off
