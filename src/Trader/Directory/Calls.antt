-- ===== src/Trader/Directory/Calls.antt =====
-- src/trader.c: the same calls as the code makes them, with the pointer that a search for the name gives.
use bourse_server.Base.{
  ℕ, Option, none, some, List, [], ◌∷◌, ℤ, pos, int_eq, M, pure, fault, ◌>>=◌, ◌>>◌, get,
  if◌then◌else◌,
}
use bourse_server.Trader.Store.{Trader, Traders}
use bourse_server.Trader.Table.{Found, at, nowhere, dangling, find_trader}
use bourse_server.Trader.Session.{trader_login, trader_logout}
use bourse_server.Trader.Account.{
  trader_increase_balance, trader_decrease_balance, trader_increase_inventory,
  trader_decrease_inventory,
}
use bourse_server.Trader.Directory.Spec.{
  Reply, accepted, refused, Operation, login, logout, increase_balance, decrease_balance,
  increase_inventory, decrease_inventory,
}

abbrev pub on_found : Found → (ℕ → M Traders Reply) → M Traders Reply
on_found (at i p) call = call p
on_found nowhere call = pure refused
on_found dangling call = λ s. fault

abbrev pub on_trader : List ℕ → (ℕ → M Traders Reply) → M Traders Reply
on_trader name call = do found ← get (find_trader name); on_found found call

abbrev pub reply_of : ℤ → Reply
reply_of r = if int_eq r (pos 0) then accepted else refused

abbrev pub login_reply : Option ℕ → Reply
login_reply none = refused
login_reply (some p) = accepted

module _ (junk : Trader) (me : ℕ) where
  unfoldable pub perform : Operation → M Traders Reply
  perform (login fd name) = do p ← trader_login junk me fd name; pure (login_reply p)
  perform (logout name) = on_trader name λ p. trader_logout me p >> pure accepted
  perform (increase_balance name n) =
      on_trader name λ p. trader_increase_balance me p n >> pure accepted
  perform (decrease_balance name n) =
      on_trader name λ p. do r ← trader_decrease_balance me p n; pure (reply_of r)
  perform (increase_inventory name n) =
      on_trader name λ p. trader_increase_inventory me p n >> pure accepted
  perform (decrease_inventory name n) =
      on_trader name λ p. do r ← trader_decrease_inventory me p n; pure (reply_of r)

  unfoldable pub perform_all : List Operation → M Traders (List Reply)
  unfolding perform
  perform_all [] = pure []
  perform_all (op ∷ ops) = do r ← perform op; rs ← perform_all ops; pure (r ∷ rs)
