-- ===== src/Server/Dispatch.antt =====
-- src/server.c: the branch of each request, beside the reference.
use bourse_server.Base.{
  ℕ, ◌≡◌, refl, sym, ap, Bool, true, false, Option, some, List, [], ◌<◌, ◌^◌, ◌++◌, ℤ, pos, int_eq,
  M, Outcome, done, blocked, fault, and_then, pure, ◌>>=◌, ◌>>◌, ◌==◌, not, length, if◌then◌else◌,
}
use bourse_server.Protocol.ByteOrder.{ntohl}
use bourse_server.Protocol.Types.{PacketHeader, StatusInfo, type_code, word32}
use bourse_server.Protocol.Messages.{
  Request, login, status, deposit, withdraw, escrow, release, buy, sell, cancel, IsRequest,
  request_type, request_payload, field, field-read,
}
use bourse_server.Server.Exchange.{Market}
use bourse_server.Server.State.{System, Locals, on_traders}
use bourse_server.Trader.{
  trader_increase_balance, trader_decrease_balance, trader_increase_inventory,
  trader_decrease_inventory,
}
use bourse_server.Server.Requests.{
  send_ack, send_nack, ack_if, handle, deposit_request, withdraw_request, escrow_request,
  release_request, buy_request, sell_request, cancel_request, status_request,
}
use bourse_server.Server.Reference.{answer_with, status_after, answer_if, serve}

pub and_then_assoc :
    {S A B C : Type 0} (o : Outcome S A) (f : A → M S B) (k : B → M S C) (g : A → M S C)
    → ((a : A) (s : S) → and_then (f a s) k ≡ g a s)
    → and_then (and_then o f) k ≡ and_then o g
and_then_assoc (done a s) f k g same = same a s
and_then_assoc (blocked s) f k g same = refl
and_then_assoc fault f k g same = refl

module _ {X : Type 0} (sys : System X) (me p : ℕ) where
  open sys use {exchange, stack_info, stack_quantity}
  open exchange use {exchange_get_status, exchange_post_buy, exchange_post_sell, exchange_cancel}

  -- The answer of the code, by the test of the result and then the status.
  answer_if-ack_if :
      (ok : Bool) (info : StatusInfo)
      → answer_with sys me p (answer_if sys me ok info) ≡ ack_if sys me ok p info
  answer_if-ack_if true info = refl
  answer_if-ack_if false info = refl

  answered :
      (ok : Bool) (info : StatusInfo) (m : Market X)
      → and_then (status_after sys me ok info m) (answer_with sys me p)
        ≡ (exchange_get_status info >>= λ info'. ack_if sys me ok p info') m
  answered ok info m =
      and_then_assoc (exchange_get_status info m) _ _ _
        (λ info' s. ap (λ k. k s) (answer_if-ack_if ok info'))

  -- The same with the test turned round, as for the order id 0.
  answered_unless :
      (failed : Bool) (info : StatusInfo) (m : Market X)
      → and_then (status_after sys me (not failed) info m) (answer_with sys me p)
        ≡ (exchange_get_status info >>= λ info'.
              if failed then send_nack sys me p else send_ack sys me p (some info'))
            m
  answered_unless true info m = answered false info m
  answered_unless false info m = answered true info m

  -- The payload pointer once the packet of a request has arrived: an empty payload leaves it.
  abbrev pub arrived : Request → Option (List ℕ) → Option (List ℕ)
  arrived r old = if length (request_payload r) == 0 then old else some (request_payload r)

  number : (x : ℕ) → x < 2 ^ 32 → ntohl (word32 (field x) 0) ≡ x
  number x fits = field-read x fits []

  deposit-serve :
      (x : ℕ) (m : Market X)
      → x < 2 ^ 32
      → deposit_request sys me p (some (field x)) m ≡ serve sys me p (deposit x) m
  unfolding deposit_request serve
  deposit-serve x m fits = rw (number x fits) (
      sym (
        and_then_assoc (on_traders (trader_increase_balance me p x) m) _ _ _
          (λ _. answered true stack_info)))

  withdraw-serve :
      (x : ℕ) (m : Market X)
      → x < 2 ^ 32
      → withdraw_request sys me p (some (field x)) m ≡ serve sys me p (withdraw x) m
  unfolding withdraw_request serve
  withdraw-serve x m fits = rw (number x fits) (
      sym (
        and_then_assoc (on_traders (trader_decrease_balance me p x) m) _ _ _
          (λ r. answered (int_eq r (pos 0)) stack_info)))

  escrow-serve :
      (x : ℕ) (m : Market X)
      → x < 2 ^ 32
      → escrow_request sys me p (some (field x)) m ≡ serve sys me p (escrow x) m
  unfolding escrow_request serve
  escrow-serve x m fits = rw (number x fits) (
      sym (
        and_then_assoc (on_traders (trader_increase_inventory me p x) m) _ _ _
          (λ _. answered true stack_info)))

  release-serve :
      (x : ℕ) (m : Market X)
      → x < 2 ^ 32
      → release_request sys me p (some (field x)) m ≡ serve sys me p (release x) m
  unfolding release_request serve
  release-serve x m fits = rw (number x fits) (
      sym (
        and_then_assoc (on_traders (trader_decrease_inventory me p x) m) _ _ _
          (λ r. answered (int_eq r (pos 0)) stack_info)))

  buy-serve :
      (q x : ℕ) (m : Market X)
      → q < 2 ^ 32
      → x < 2 ^ 32
      → buy_request sys me p (some (field q ++ field x)) m ≡ serve sys me p (buy q x) m
  unfolding buy_request serve
  buy-serve q x m q-fits x-fits =
      rw (number q q-fits, number x x-fits)
        (sym (
          and_then_assoc (exchange_post_buy p q x m) _ _ _
            (λ order. answered_unless (order == 0) (record stack_info { orderid = order }))))

  sell-serve :
      (q x : ℕ) (m : Market X)
      → q < 2 ^ 32
      → x < 2 ^ 32
      → sell_request sys me p (some (field q ++ field x)) m ≡ serve sys me p (sell q x) m
  unfolding sell_request serve
  sell-serve q x m q-fits x-fits =
      rw (number q q-fits, number x x-fits)
        (sym (
          and_then_assoc (exchange_post_sell p q x m) _ _ _
            (λ order. answered_unless (order == 0) (record stack_info { orderid = order }))))

  cancel-serve :
      (x : ℕ) (m : Market X)
      → x < 2 ^ 32
      → cancel_request sys me p (some (field x)) m ≡ serve sys me p (cancel x) m
  unfolding cancel_request serve
  cancel-serve x m fits = rw (number x fits) (
      sym (
        and_then_assoc (exchange_cancel p x stack_quantity m) _ _ _
          (λ r. answered (int_eq r.0 (pos 0)) (record stack_info { quantity = r.1 }))))

  status-serve : (m : Market X) → status_request sys me p m ≡ serve sys me p status m
  unfolding status_request serve
  status-serve m = sym (answered true stack_info m)

  login-serve :
      (name : List ℕ) (m : Market X) → send_nack sys me p m ≡ serve sys me p (login name) m
  unfolding serve
  login-serve name m = refl

  module _ (fd : ℤ) (hdr : PacketHeader) (old : Option (List ℕ)) (m : Market X) where
    -- The locals of the thread, with the payload of the request.
    abbrev pub locals_with : Request → Locals
    locals_with r = record { this_trader = some p; payload = arrived r old }

    then_locals :
        (r : Request) {o : Outcome (Market X) ℤ}
        → o ≡ serve sys me p r m
        → and_then o (λ _. pure (locals_with r)) ≡ (serve sys me p r >> pure (locals_with r)) m
    then_locals r same = ap (λ o. and_then o (λ _. pure (locals_with r))) same

    -- A packet of the type and with the payload of a request, whose numbers fit their fields,
    -- from a client who is logged in, does what the reference says for the request: its effect
    -- on the account or on the exchange, and then its answer, ACK or NACK. The locals of the
    -- thread stay.
    pub handle-serve :
        (r : Request)
        → IsRequest r
        → hdr.type ≡ type_code (request_type r)
        → handle sys me fd hdr (locals_with r) m ≡ (serve sys me p r >> pure (locals_with r)) m
    unfolding handle request_type request_payload
    handle-serve (login name) fits kind = rw kind (then_locals (login name) (login-serve name m))
    handle-serve status fits kind = rw kind (then_locals status (status-serve m))
    handle-serve (deposit x) fits kind = rw kind (then_locals (deposit x) (deposit-serve x m fits))
    handle-serve (withdraw x) fits kind =
        rw kind (then_locals (withdraw x) (withdraw-serve x m fits))
    handle-serve (escrow x) fits kind = rw kind (then_locals (escrow x) (escrow-serve x m fits))
    handle-serve (release x) fits kind = rw kind (then_locals (release x) (release-serve x m fits))
    handle-serve (buy q x) fits kind =
        rw kind (then_locals (buy q x) (buy-serve q x m fits.0 fits.1))
    handle-serve (sell q x) fits kind =
        rw kind (then_locals (sell q x) (sell-serve q x m fits.0 fits.1))
    handle-serve (cancel x) fits kind = rw kind (then_locals (cancel x) (cancel-serve x m fits))
