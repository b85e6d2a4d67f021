-- ===== src/Trader/Directory/View.antt =====
-- The directory that the table and the objects of src/trader.c stand for.
use mathlib.Core.Path.{fun_ext}
use bourse_server.Base.{
  ℕ, ◌≤◌, ◌≡◌, refl, sym, ◌∙◌, inl, inr, false, Option, some, none, List, ℤ, minus_one, int_eq,
  arith, length, if◌then◌else◌, Bool-cases, ◌==◌, ==_iff,
}
use bourse_server.Trader.Store.{Trader, Traders, update, update_self, update_ne, put}
use bourse_server.Trader.Table.{Found, at, nowhere, dangling, find_trader, same_name, max_traders}
use bourse_server.Trader.Lookup.{find_named-update, same_name_iff}
use bourse_server.Trader.Entries.{
  IsSettled, Entries, Entries-update, find_named-cases, same_object, taken,
}
use bourse_server.Trader.Directory.Spec.{Account, Directory, set_account}

-- The table between calls: its size is that of the array, its entries are settled traders with names
-- of their own, no more of them than `count` says, and no address that malloc(3) may still give
-- is in use.
pub record IsSound (s : Traders) : Type 0 where
  pub size : length s.all_traders ≡ max_traders
  pub entries : Entries s.heap s.all_traders
  pub counted : taken s.all_traders ≤ s.count
  pub unused : (q : ℕ) → s.next ≤ q → s.heap q ≡ none

abbrev pub session_of : ℤ → Option ℤ
session_of fd = if int_eq fd minus_one then none else some fd

abbrev pub account_of : Trader → Account
account_of t = record { balance = t.balance; inventory = t.inventory; session = session_of t.fd }

abbrev pub account_at : (ℕ → Option Trader) → Found → Option Account
account_at h (at i p) = elim (h p) [ none ↦ none | some t ↦ some (account_of t) ]
account_at h nowhere = none
account_at h dangling = none

pub account_at_live :
    (h : ℕ → Option Trader) (i p : ℕ) (t : Trader)
    → h p ≡ some t
    → account_at h (at i p) ≡ some (account_of t)
account_at_live h i p t live = ground arith

unfoldable pub view : Traders → Directory
view s = record { accounts = λ name. account_at s.heap (find_trader name s); members = s.count }

-- A change of a trader in the table.
module _ (s : Traders) (sound : IsSound s) (i p : ℕ) (t u : Trader)
    (found : find_trader t.name s ≡ at i p) (live : s.heap p ≡ some t)
    (same : u.name ≡ t.name) where
  pub put-IsSound : IsSettled u → IsSound (put p u s)
  put-IsSound ok = record {
    size = sound.size;
    entries = Entries-update s.heap p t u live same ok s.all_traders sound.entries;
    counted = sound.counted;
    unused = λ q h. elim (Bool-cases (q == p)) [
      | inl here ↦ absurd (grind (arith, sound.unused q h, ==_iff q p))
      | inr other ↦ update_ne s.heap p q (some u) other ∙ sound.unused q h
    ];
  }

  same_search : (name : List ℕ) → find_trader name (put p u s) ≡ find_trader name s
  same_search name = find_named-update s.heap p t u live same s.all_traders 0 name

  apart :
      (name : List ℕ) (q : ℕ) (v : Trader)
      → same_name name t.name ≡ false
      → s.heap q ≡ some v
      → v.name ≡ name
      → (q == p) ≡ false
  apart name q v other there named = elim (Bool-cases (q == p)) [
    | inl here ↦
        absurd
          (grind (arith, same_object s.heap p q v t here there live, same_name_iff name t.name))
    | inr far ↦ far
  ]

  account_put :
      (name : List ℕ)
      → account_at (update s.heap p (some u)) (find_trader name (put p u s)) ≡ (
          if same_name name t.name
          then some (account_of u)
          else account_at s.heap (find_trader name s))
  account_put name = elim (Bool-cases (same_name name t.name)) [
    | inl hit ↦
        rw
          (
            same_search name,
            (same_name_iff name t.name).0 hit,
            found,
            (same_name_iff t.name t.name).1 refl,
          )
          (account_at_live (update s.heap p (some u)) i p u (update_self s.heap p (some u)))
    | inr miss ↦ elim (find_named-cases s.heap s.all_traders 0 name sound.entries) [
      | inl gone ↦ rw (same_search name, miss, gone) refl
      | inr (j, q, v, at_q, there, named, ok) ↦
          rw (same_search name, miss, at_q)
            (account_at_live (update s.heap p (some u)) j q v
                (update_ne s.heap p q (some u) (apart name q v miss there named) ∙ there)
              ∙ sym (account_at_live s.heap j q v there))
    ]
  ]

  -- A change of the account under the trader's name, and nothing else.
  pub view-put : view (put p u s) ≡ set_account t.name (account_of u) (view s)
  unfolding view set_account
  view-put = λ i. record { accounts = fun_ext account_put i; members = s.count }
