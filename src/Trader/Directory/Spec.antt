-- ===== src/Trader/Directory/Spec.antt =====
-- include/trader.h: the traders as the header describes them. "State information for all traders who
-- have ever logged in", with "which traders are currently logged-in"; no objects, pointers, mutexes
-- or table entries.
use bourse_server.Base.{
  ℕ, suc, ◌+◌, ◌-◌, ◌%◌, ◌^◌, Option, none, some, List, [], ◌∷◌, ℤ, leb, if◌then◌else◌,
}
use bourse_server.Trader.Table.{max_traders, same_name}

-- "Account information persists across login sessions": the session is the connection to the client
-- of a trader who is logged in.
pub record Account : Type 0 where
  pub balance : ℕ
  pub inventory : ℕ
  pub session : Option ℤ

-- `members` is the number of traders who have ever logged in.
pub record Directory : Type 0 where
  pub accounts : List ℕ → Option Account
  pub members : ℕ

-- `trader_init`.
abbrev pub no_accounts : Directory
no_accounts = record { accounts = λ name. none; members = 0 }

unfoldable pub set_account : List ℕ → Account → Directory → Directory
set_account name a d = record d {
  accounts = λ n. if same_name n name then some a else d.accounts n;
}

-- A call returns a result of success or one of failure: a pointer or NULL, 0 or -1.
pub data Reply : Type 0 where
  accepted refused : Reply

-- `trader_login`: "can fail if the specified user name is already logged in".
abbrev pub relogin : ℤ → List ℕ → Account → Option ℤ → Directory → Reply × Directory
relogin fd name a none d = (accepted, set_account name (record a { session = some fd }) d)
relogin fd name a (some other) d = (refused, d)

abbrev pub open_account : ℤ → List ℕ → Directory → Reply × Directory
open_account fd name d = if leb max_traders d.members then (refused, d) else (
  accepted,
  set_account name (record { balance = 0; inventory = 0; session = some fd })
      (record d { members = suc d.members }),
)

abbrev pub log_in : ℤ → List ℕ → Option Account → Directory → Reply × Directory
log_in fd name none d = open_account fd name d
log_in fd name (some a) d = relogin fd name a a.session d

-- `trader_logout`: "the trader remains in the traders map".
abbrev pub log_out : List ℕ → Account → Directory → Reply × Directory
log_out name a d = (accepted, set_account name (record a { session = none }) d)

-- `trader_increase_balance`, with the `uint32_t` of the balance.
abbrev pub deposit : ℕ → List ℕ → Account → Directory → Reply × Directory
deposit amount name a d =
    (accepted, set_account name (record a { balance = (a.balance + amount) % 2 ^ 32 }) d)

-- `trader_decrease_balance`: 0 "if the original balance is at least as great as the amount of
-- decrease, -1 otherwise".
abbrev pub withdraw : ℕ → List ℕ → Account → Directory → Reply × Directory
withdraw amount name a d =
    if leb amount a.balance
    then (accepted, set_account name (record a { balance = a.balance - amount }) d)
    else (refused, d)

-- `trader_increase_inventory`.
abbrev pub escrow : ℕ → List ℕ → Account → Directory → Reply × Directory
escrow quantity name a d =
    (accepted, set_account name (record a { inventory = (a.inventory + quantity) % 2 ^ 32 }) d)

-- `trader_decrease_inventory`.
abbrev pub release : ℕ → List ℕ → Account → Directory → Reply × Directory
release quantity name a d =
    if leb quantity a.inventory
    then (accepted, set_account name (record a { inventory = a.inventory - quantity }) d)
    else (refused, d)

-- The calls of the module, with the trader's name for the pointer that the login has returned.
pub data Operation : Type 0 where
  login : ℤ → List ℕ → Operation
  logout : List ℕ → Operation
  increase_balance decrease_balance : List ℕ → ℕ → Operation
  increase_inventory decrease_inventory : List ℕ → ℕ → Operation

-- A call on a trader who has never logged in cannot be made.
abbrev pub on_account :
    Option Account → (Account → Directory → Reply × Directory) → Directory → Reply × Directory
on_account none call d = (refused, d)
on_account (some a) call d = call a d

unfoldable pub apply : Operation → Directory → Reply × Directory
unfolding set_account
apply (login fd name) d = log_in fd name (d.accounts name) d
apply (logout name) d = on_account (d.accounts name) (log_out name) d
apply (increase_balance name n) d = on_account (d.accounts name) (deposit n name) d
apply (decrease_balance name n) d = on_account (d.accounts name) (withdraw n name) d
apply (increase_inventory name n) d = on_account (d.accounts name) (escrow n name) d
apply (decrease_inventory name n) d = on_account (d.accounts name) (release n name) d

-- The results of a sequence of calls, and the directory after them.
unfoldable pub apply_all : List Operation → Directory → List Reply × Directory
apply_all [] d = ([], d)
apply_all (op ∷ ops) d =
    let (r, d') = apply op d in let (rs, d'') = apply_all ops d' in (r ∷ rs, d'')
