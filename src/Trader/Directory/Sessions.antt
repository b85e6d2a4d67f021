-- ===== src/Trader/Directory/Sessions.antt =====
-- include/trader.h: who is logged in, behind the operations of the directory.
use bourse_server.Base.{
  suc, ◌≡◌, ◌≢◌, refl, ◌∙◌, ap, subst, Option, none, some, List, [], ◌∷◌, ℕ, ℤ, Bool, true, false,
  Bool-cases, inl, inr, leb, if◌then◌else◌,
}
use bourse_server.Trader.Table.{same_name, max_traders}
use bourse_server.Trader.Lookup.{same_name_iff}
use bourse_server.Trader.Directory.Spec.{
  Account, Directory, Operation, login, logout, increase_balance, decrease_balance,
  increase_inventory, decrease_inventory, Reply, accepted, refused, apply, apply_all, set_account,
  on_account, relogin, log_in, log_out, deposit, withdraw, escrow, release,
}

-- Whether an account is there, with a session.
abbrev pub HasSession : Option Account → Type 0
HasSession none = ⊥
HasSession (some a) = (fd : ℤ) × (a.session ≡ some fd)

abbrev pub IsOnline : List ℕ → Directory → Type 0
IsOnline name d = HasSession (d.accounts name)

-- The operation does not log the trader out.
abbrev pub Spares : List ℕ → Operation → Type 0
Spares name (logout other) = name ≢ other
Spares name op = Unit {0}

abbrev pub AllSpare : List ℕ → List Operation → Type 0
AllSpare name [] = Unit {0}
AllSpare name (op ∷ ops) = Spares name op × AllSpare name ops

-- An account that is set keeps the sessions of the others, and of its own name if it has one.
set_account-IsOnline :
    (name other : List ℕ) (a : Account) (d : Directory)
    → (same_name name other ≡ true → HasSession (some a))
    → (same_name name other ≡ false → IsOnline name d)
    → IsOnline name (set_account other a d)
unfolding set_account
set_account-IsOnline name other a d own rest = elim (Bool-cases (same_name name other)) [
  | inl same ↦ rw same (own same)
  | inr differ ↦ rw differ (rest differ)
]

-- The same for a new state of the account that is there.
on_own :
    (name other : List ℕ) (a a' : Account) (d : Directory)
    → d.accounts other ≡ some a
    → (HasSession (some a) → HasSession (some a'))
    → IsOnline name d
    → IsOnline name (set_account other a' d)
on_own name other a a' d member keeps online =
    set_account-IsOnline name other a' d
      (λ same.
        keeps
          (subst HasSession (ap d.accounts ((same_name_iff name other).0 same) ∙ member) online))
      (λ _. online)

on_account-IsOnline :
    (name : List ℕ) (d : Directory) (o : Option Account)
    (call : Account → Directory → Reply × Directory)
    → ((a : Account) → o ≡ some a → IsOnline name (call a d).1)
    → IsOnline name d
    → IsOnline name (on_account o call d).1
on_account-IsOnline name d none call kept online = online
on_account-IsOnline name d (some a) call kept online = kept a refl

if-IsOnline :
    (name : List ℕ) (b : Bool) (yes_case no_case : Reply × Directory)
    → IsOnline name yes_case.1
    → IsOnline name no_case.1
    → IsOnline name (if b then yes_case else no_case).1
if-IsOnline name true yes_case no_case online kept = online
if-IsOnline name false yes_case no_case online kept = kept

relogin-IsOnline :
    (fd : ℤ) (name other : List ℕ) (a : Account) (session : Option ℤ) (d : Directory)
    → IsOnline name d
    → IsOnline name (relogin fd other a session d).1
relogin-IsOnline fd name other a none d online =
    set_account-IsOnline name other (record a { session = some fd }) d (λ _. (fd, refl))
      (λ _. online)
relogin-IsOnline fd name other a (some there) d online = online

log_in-IsOnline :
    (fd : ℤ) (name other : List ℕ) (o : Option Account) (d : Directory)
    → IsOnline name d
    → IsOnline name (log_in fd other o d).1
log_in-IsOnline fd name other none d online =
    if-IsOnline name (leb max_traders d.members) _ _ online (
      set_account-IsOnline name other _ (record d { members = suc d.members }) (λ _. (fd, refl))
        (λ _. online))
log_in-IsOnline fd name other (some a) d online =
    relogin-IsOnline fd name other a a.session d online

apply-IsOnline :
    (name : List ℕ) (op : Operation) (d : Directory)
    → Spares name op
    → IsOnline name d
    → IsOnline name (apply op d).1
unfolding apply
apply-IsOnline name (login fd other) d spares online =
    log_in-IsOnline fd name other (d.accounts other) d online
apply-IsOnline name (logout other) d spares online =
    on_account-IsOnline name d (d.accounts other) (log_out other)
      (λ a e.
        set_account-IsOnline name other (record a { session = none }) d
          (λ same. absurd (spares ((same_name_iff name other).0 same))) (λ _. online))
      online
apply-IsOnline name (increase_balance other n) d spares online =
    on_account-IsOnline name d (d.accounts other) (deposit n other)
      (λ a e. on_own name other a _ d e (λ h. h) online) online
apply-IsOnline name (decrease_balance other n) d spares online =
    on_account-IsOnline name d (d.accounts other) (withdraw n other)
      (λ a e.
        if-IsOnline name (leb n a.balance) _ _ (on_own name other a _ d e (λ h. h) online) online)
      online
apply-IsOnline name (increase_inventory other n) d spares online =
    on_account-IsOnline name d (d.accounts other) (escrow n other)
      (λ a e. on_own name other a _ d e (λ h. h) online) online
apply-IsOnline name (decrease_inventory other n) d spares online =
    on_account-IsOnline name d (d.accounts other) (release n other)
      (λ a e.
        if-IsOnline name (leb n a.inventory) _ _ (on_own name other a _ d e (λ h. h) online) online)
      online

pub apply_all-IsOnline :
    (name : List ℕ) (ops : List Operation) (d : Directory)
    → AllSpare name ops
    → IsOnline name d
    → IsOnline name (apply_all ops d).1
unfolding apply_all
apply_all-IsOnline name [] d spares online = online
apply_all-IsOnline name (op ∷ ops) d (spare, spares) online =
    apply_all-IsOnline name ops (apply op d).1 spares (apply-IsOnline name op d spare online)

set_own :
    (name : List ℕ) (a : Account) (d : Directory)
    → HasSession (some a)
    → IsOnline name (set_account name a d)
unfolding set_account
set_own name a d there = rw ((same_name_iff name name).1 refl) there

not_accepted : refused ≢ accepted
not_accepted e = cc

abbrev opened : Bool → List ℕ → Account → Directory → Directory → Reply × Directory
opened full name a d d' = if full then (refused, d) else (accepted, set_account name a d')

opened-IsOnline :
    (fd : ℤ) (name : List ℕ) (d : Directory) (full : Bool) (a : Account) (d' : Directory)
    → a.session ≡ some fd
    → (opened full name a d d').0 ≡ accepted
    → IsOnline name (opened full name a d d').1
opened-IsOnline fd name d true a d' e ok = absurd (not_accepted ok)
opened-IsOnline fd name d false a d' e ok = set_own name a d' (fd, e)

joined-IsOnline :
    (fd : ℤ) (name : List ℕ) (a : Account) (session : Option ℤ) (d : Directory)
    → (relogin fd name a session d).0 ≡ accepted
    → IsOnline name (relogin fd name a session d).1
joined-IsOnline fd name a none d ok = set_own name (record a { session = some fd }) d (fd, refl)
joined-IsOnline fd name a (some there) d ok = absurd (not_accepted ok)

-- A login that is accepted brings the trader online.
pub accepted-IsOnline :
    (fd : ℤ) (name : List ℕ) (o : Option Account) (d : Directory)
    → (log_in fd name o d).0 ≡ accepted
    → IsOnline name (log_in fd name o d).1
accepted-IsOnline fd name none d ok =
    opened-IsOnline fd name d (leb max_traders d.members) _ (record d { members = suc d.members })
      refl ok
accepted-IsOnline fd name (some a) d ok = joined-IsOnline fd name a a.session d ok

-- A login of a trader who is online is refused, and changes nothing.
pub refused_online :
    (fd : ℤ) (name : List ℕ) (d : Directory) (o : Option Account)
    → HasSession o
    → log_in fd name o d ≡ (refused, d)
refused_online fd name d none online = absurd online
refused_online fd name d (some a) (there, e) = rw e refl
