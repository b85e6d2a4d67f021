-- ===== src/Trader/Directory/Online.antt =====
-- src/trader.c: how long a login lasts, beside the directory of include/trader.h.
use bourse_server.Base.{
  ◌≡◌, ◌≢◌, sym, ◌∙◌, ap, subst, Option, none, some, List, ℕ, ℤ, minus_one, Outcome, done, blocked,
  fault, and_then, pure, done_state,
}
use bourse_server.Trader.Store.{Trader, Traders}
use bourse_server.Trader.Session.{trader_login}
use bourse_server.Trader.Directory.Spec.{Operation, login, Reply, accepted, refused, apply}
use bourse_server.Trader.Directory.Calls.{perform, perform_all, login_reply}
use bourse_server.Trader.Directory.View.{IsSound, view}
use bourse_server.Trader.Directory.Refines.{IsUsable}
use bourse_server.Trader.Directory.History.{AllAllowed, perform-Meets, perform_all_lem}
use bourse_server.Trader.Directory.Sessions.{
  IsOnline, AllSpare, apply_all-IsOnline, accepted-IsOnline, refused_online,
}

module _ (junk : Trader) (me : ℕ) where
  -- The pointer that the login returns is NULL where the reply is a refusal.
  refused-none :
      (o : Outcome Traders (Option ℕ)) (s : Traders)
      → and_then o (λ p. pure (login_reply p)) ≡ done refused s
      → o ≡ done none s
  refused-none (done none s') s e = ap (done none) (done_state e)
  refused-none (done (some p) s') s e = absurd (accepts e)
    where
      accepts : ◌≡◌ {A = Outcome Traders Reply} (done accepted s') (done refused s) → ⊥
      accepts e = cc
  refused-none (blocked s') s e = absurd (waits e)
    where
      waits : ◌≡◌ {A = Outcome Traders Reply} (blocked s') (done refused s) → ⊥
      waits e = cc
  refused-none fault s e = absurd (fails e)
    where
      fails : ◌≡◌ {A = Outcome Traders Reply} fault (done refused s) → ⊥
      fails e = cc

  reply_of_done :
      {r r' : Reply} {s s' : Traders}
      → ◌≡◌ {A = Outcome Traders Reply} (done r s) (done r' s')
      → r ≡ r'
  reply_of_done e = cc

  -- From a sound state, a login under a name over a descriptor other than -1, which is accepted,
  -- lasts: behind any calls that their callers may make, among which no logout of that name, a
  -- login under the name over any descriptor other than -1 returns NULL, and the state that it
  -- leaves shows the directory as it was. The mutex in a new block can be locked, and the count of
  -- references there is not negative.
  pub login_lasts :
      (fd fd' : ℤ) (name : List ℕ) (p : ℕ) (ops : List Operation) (s s₁ : Traders)
      → IsUsable junk
      → IsSound s
      → fd ≢ minus_one
      → fd' ≢ minus_one
      → trader_login junk me fd name s ≡ done (some p) s₁
      → AllSpare name ops
      → AllAllowed ops (view s₁)
      → (rs : List Reply) × (s₂ : Traders) × (s₃ : Traders) × (perform_all junk me ops s₁
          ≡ done rs s₂)
        × (trader_login junk me fd' name s₂ ≡ done none s₃)
        × (view s₃ ≡ view s₂)
  unfolding perform apply
  login_lasts fd fd' name p ops s s₁ usable sound real real' ran spares allowed =
      let (t, met, sound_t, seen) = perform-Meets junk me s sound (login fd name) usable real in
      let first : done (apply (login fd name) (view s)).0 t ≡ done accepted s₁ =
        sym met ∙ ap (λ o. and_then o (λ q. pure (login_reply q))) ran in
      let joined : IsOnline name (view s₁) =
        subst (IsOnline name) (sym seen ∙ ap view (done_state first))
          (accepted-IsOnline fd name ((view s).accounts name) (view s) (reply_of_done first)) in
      let (s₂, ran₂, sound₂, seen₂) =
        perform_all_lem junk me usable ops s₁ (subst IsSound (done_state first) sound_t) allowed in
      let still : IsOnline name (view s₂) =
        subst (IsOnline name) (sym seen₂) (apply_all-IsOnline name ops (view s₁) spares joined) in
      let (s₃, ran₃, sound₃, seen₃) =
        perform-Meets junk me s₂ sound₂ (login fd' name) usable real' in
      let spec = refused_online fd' name (view s₂) ((view s₂).accounts name) still in
      (
        _,
        s₂,
        s₃,
        ran₂,
        refused-none (trader_login junk me fd' name s₂) s₃ (ran₃ ∙ ap (λ x. done x.0 s₃) spec),
        seen₃ ∙ ap (λ x. x.1) spec,
      )
