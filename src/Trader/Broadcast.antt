-- ===== src/Trader/Broadcast.antt =====
-- src/trader.c: the broadcast, over the whole table.
use mathlib.Core.Path.{fun_ext}
use mathlib.Core.List.{append_assoc, append-nil}
use bourse_server.Base.{
  ℕ, suc, ◌≡◌, ◌≢◌, refl, sym, ◌∙◌, ap, subst, inl, inr, true, false, Bool, ◌||◌, Option, some,
  none, List, [], ◌∷◌, ◌++◌, ℤ, pos, minus_one, int_eq, int_eq_iff, done, arith, length, ◌==◌,
  ==_iff, Bool-cases, if◌then◌else◌,
}
use bourse_server.Protocol.{stamp}
use bourse_server.Protocol.ByteOrder.{ntohs}
use bourse_server.Protocol.Types.{PacketHeader, header_bytes}
use bourse_server.Protocol.Wire.{Wire, Rio, deliver}
use bourse_server.Protocol.Send.{Holds, packet, stamp-size, proto_send_packet-bad_fd}
use bourse_server.Protocol.Reliable.{IsWritable, proto_send_packet-whole}
use bourse_server.Trader.Store.{
  free, held, Trader, Traders, update, update_self, update_ne, update_same, put,
}
use bourse_server.Trader.Packets.{trader_send_packet, broadcast_from}
use bourse_server.Trader.Sending.{sent_lem, unsent_lem}

-- Whether the table, or the rest of it, refers to the object at an address.
abbrev pub listed : ℕ → List (Option ℕ) → Bool
listed q [] = false
listed q (none ∷ slots) = listed q slots
listed q (some p ∷ slots) = (q == p) || listed q slots

-- Every entry is an object whose mutex is free, and no object has two entries.
abbrev pub AllIdle : (ℕ → Option Trader) → List (Option ℕ) → Type 0
AllIdle h [] = Unit {0}
AllIdle h (none ∷ slots) = AllIdle h slots
AllIdle h (some p ∷ slots) =
    ((t : Trader) × (h p ≡ some t) × (t.trader_mutex ≡ free) × (listed p slots ≡ false))
    × AllIdle h slots

abbrev pub one_more : Option Trader → ℤ → ℕ → ℕ
one_more none fd n = n
one_more (some t) fd n = if int_eq fd t.fd then suc n else n

-- The number of the traders in the table who are logged in over a connection.
abbrev pub listeners : (ℕ → Option Trader) → List (Option ℕ) → ℤ → ℕ
listeners h [] fd = 0
listeners h (none ∷ slots) fd = listeners h slots fd
listeners h (some p ∷ slots) fd = one_more (h p) fd (listeners h slots fd)

not_head : (p q : ℕ) (b : Bool) → (p == q) || b ≡ false → (q == p) ≡ false
not_head p q b off = elim (Bool-cases (q == p)) [
  | inl here ↦ absurd (grind (arith, off, here, ==_iff q p, ==_iff p q))
  | inr other ↦ other
]

not_tail : (a b : Bool) → a || b ≡ false → b ≡ false
not_tail true b off = absurd (ground arith)
not_tail false b off = off

-- A change of an object that the rest of the table does not refer to.
AllIdle-update :
    (h : ℕ → Option Trader) (p : ℕ) (c : Option Trader) (slots : List (Option ℕ))
    → listed p slots ≡ false
    → AllIdle h slots
    → AllIdle (update h p c) slots
AllIdle-update h p c [] off idle = tt
AllIdle-update h p c (none ∷ slots) off idle = AllIdle-update h p c slots off idle
AllIdle-update h p c (some q ∷ slots) off ((t, live, unlocked, once), idle) = (
  (t, update_ne h p q c (not_head p q (listed p slots) off) ∙ live, unlocked, once),
  AllIdle-update h p c slots (not_tail (p == q) (listed p slots) off) idle,
)

listeners-update :
    (h : ℕ → Option Trader) (p : ℕ) (c : Option Trader) (slots : List (Option ℕ)) (fd : ℤ)
    → listed p slots ≡ false
    → listeners (update h p c) slots fd ≡ listeners h slots fd
listeners-update h p c [] fd off = refl
listeners-update h p c (none ∷ slots) fd off = listeners-update h p c slots fd off
listeners-update h p c (some q ∷ slots) fd off =
    ap (λ o. one_more o fd (listeners (update h p c) slots fd))
      (update_ne h p q c (not_head p q (listed p slots) off))
    ∙ ap (one_more (h q) fd)
        (listeners-update h p c slots fd (not_tail (p == q) (listed p slots) off))

module _ (me : ℕ) where
  -- A trader who is logged out is left with its mutex locked.
  abbrev pub reached : Trader → Trader
  reached t = if int_eq t.fd minus_one then record t { trader_mutex = held me 0 } else t

  -- The objects behind the broadcast.
  abbrev pub all_reached : List (Option ℕ) → (ℕ → Option Trader) → ℕ → Option Trader
  all_reached slots h q =
      if listed q slots then elim (h q) [ none ↦ none | some t ↦ some (reached t) ] else h q

  reach_first :
      (h : ℕ → Option Trader) (p : ℕ) (t : Trader) (slots : List (Option ℕ))
      → h p ≡ some t
      → listed p slots ≡ false
      → all_reached slots (update h p (some (reached t))) ≡ all_reached (some p ∷ slots) h
  reach_first h p t slots live once = fun_ext go
    where
      go :
          (q : ℕ)
          → all_reached slots (update h p (some (reached t))) q ≡ all_reached (some p ∷ slots) h q
      go q = elim (Bool-cases (q == p)) [
        | inl here ↦
            subst
              (λ x.
                all_reached slots (update h p (some (reached t))) x
                ≡ all_reached (some p ∷ slots) h x)
              (sym ((==_iff q p).0 here))
              (rw (once, update_self h p (some (reached t)), (==_iff p p).1 refl, live) refl)
        | inr other ↦ rw (update_ne h p q (some (reached t)) other, other) refl
      ]

module _ (rio : Rio) (pkt : PacketHeader) (body : List ℕ) where
  -- So many copies of the packet, each with the time at which it was sent.
  pub data Copies : ℕ → List ℕ → Type 0 where
    no_copy : Copies 0 []
    copy :
        {n : ℕ} {bs : List ℕ}
        → (w : Wire) → Copies n bs
        → Copies (suc n) (packet rio pkt w body ++ bs)

  -- The connections behind the broadcast over the rest of the table.
  abbrev pub Heard : List (Option ℕ) → Traders → Wire → Type 0
  Heard slots s w =
      (fd : ℤ)
      → fd ≢ minus_one
      → (bs : List ℕ) × (w.outgoing fd ≡ s.wire.outgoing fd ++ bs)
        × Copies (listeners s.heap slots fd) bs

  one_copy :
      (t : Trader) (fd : ℤ) (n : ℕ) (bs : List ℕ) (w : Wire) (c : Option Trader)
      → c ≡ some t
      → Copies n bs
      → Copies (one_more c fd n) ((if int_eq fd t.fd then packet rio pkt w body else []) ++ bs)
  one_copy t fd n bs w c live copies = rw live (elim (Bool-cases (int_eq fd t.fd)) [
    | inl here ↦ rw here (copy w copies)
    | inr other ↦ rw other copies
  ])

  stamp-stamp : (h : PacketHeader) (w w' : Wire) → stamp rio (stamp rio h w) w' ≡ stamp rio h w'
  unfolding stamp
  stamp-stamp h w w' = refl

module _ (rio : Rio) (me : ℕ) (pkt : PacketHeader) (payload : Option (List ℕ)) (body : List ℕ) where
  -- One trader is sent the packet, or is not logged in.
  send_step :
      (p : ℕ) (s : Traders) (t : Trader) (sent : PacketHeader)
      → ((fd : ℤ) → fd ≢ minus_one → IsWritable rio fd)
      → s.heap p ≡ some t
      → t.trader_mutex ≡ free
      → length body ≡ ntohs sent.size
      → Holds payload body
      → (r : ℤ) × (w : Wire) × (trader_send_packet rio me p sent payload s
          ≡ done (r, stamp rio sent s.wire) (record (put p (reached me t) s) { wire = w }))
        × (w ≡ (
            if int_eq t.fd minus_one
            then s.wire
            else deliver t.fd (packet rio sent s.wire body) s.wire))
  send_step p s t sent writable live idle fits holds = elim (Bool-cases (int_eq t.fd minus_one)) [
    | inl out ↦ (
      minus_one,
      s.wire,
      unsent_lem rio me p s t (held me 0) live (rw idle refl) sent (stamp rio sent s.wire) payload
            s.wire
            (rw ((int_eq_iff t.fd minus_one).0 out)
              (proto_send_packet-bad_fd rio sent payload s.wire))
          ∙ rw out refl,
      rw out refl,
    )
    | inr online ↦ (
      pos 0,
      deliver t.fd (packet rio sent s.wire body) s.wire,
      sent_lem rio me p s t (held me 0) live (rw idle refl) sent _ payload _ (
            proto_send_packet-whole rio t.fd sent payload body s.wire
              (writable t.fd (ground (arith, int_eq_iff t.fd minus_one))) fits holds)
          ∙ ap
              (λ h.
                done (pos 0, stamp rio sent s.wire)
                  (record s { heap = h; wire = deliver t.fd (packet rio sent s.wire body) s.wire }))
              (sym (rw online (update_same s.heap p (some t) live))),
      rw online refl,
    )
  ]

  -- What the connection of the first trader has been sent.
  first_bytes :
      (s : Traders) (t : Trader) (bs : List ℕ) (fd : ℤ)
      → fd ≢ minus_one
      → (if int_eq t.fd minus_one then s.wire else deliver t.fd bs s.wire).outgoing fd
        ≡ s.wire.outgoing fd ++ (if int_eq fd t.fd then bs else [])
  first_bytes s t bs fd real = elim (Bool-cases (int_eq t.fd minus_one)) [
    | inl out ↦ elim (Bool-cases (int_eq fd t.fd)) [
      | inl here ↦ absurd (real ((int_eq_iff fd t.fd).0 here ∙ (int_eq_iff t.fd minus_one).0 out))
      | inr other ↦ rw (out, other) (sym (append-nil (s.wire.outgoing fd)))
    ]
    | inr online ↦ elim (Bool-cases (int_eq fd t.fd)) [
      | inl here ↦
          rw (online, here) (ap (λ x. s.wire.outgoing x ++ bs) (sym ((int_eq_iff fd t.fd).0 here)))
      | inr other ↦ rw (online, other) (sym (append-nil (s.wire.outgoing fd)))
    ]
  ]

  pub broadcast_from_lem :
      (slots : List (Option ℕ)) (s : Traders) (sent : PacketHeader)
      → ((fd : ℤ) → fd ≢ minus_one → IsWritable rio fd)
      → AllIdle s.heap slots
      → ((w : Wire) → stamp rio sent w ≡ stamp rio pkt w)
      → length body ≡ ntohs sent.size
      → Holds payload body
      → (w : Wire) × (broadcast_from rio me slots sent payload s
          ≡ done (pos 0) (record s { heap = all_reached me slots s.heap; wire = w }))
        × Heard rio pkt body slots s w
  unfolding broadcast_from
  broadcast_from_lem [] s sent writable idle same fits holds =
      (s.wire, refl, λ fd real. ([], sym (append-nil (s.wire.outgoing fd)), no_copy))
  broadcast_from_lem (none ∷ slots) s sent writable idle same fits holds =
      broadcast_from_lem slots s sent writable idle same fits holds
  broadcast_from_lem (some p ∷ slots) s sent writable ((t, live, unlocked, once), idle) same fits
        holds =
      let (r, w₁, ran, wire₁) = send_step p s t sent writable live unlocked fits holds in
      let s₁ : Traders = record (put p (reached me t) s) { wire = w₁ } in
      let (w₂, rest, heard) =
        broadcast_from_lem slots s₁ (stamp rio sent s.wire) writable
          (AllIdle-update s.heap p (some (reached me t)) slots once idle)
          (λ w. stamp-stamp rio pkt body sent s.wire w ∙ same w)
          (fits ∙ sym (ap ntohs (stamp-size rio sent s.wire))) holds in
      (
        w₂,
        rw (ran, rest)
            (ap (λ h. done (pos 0) (record s { heap = h; wire = w₂ }))
              (reach_first me s.heap p t slots live once)),
        λ fd real.
            let (bs, sent_on, copies) = heard fd real in
            let copies' =
              subst (λ n. Copies rio pkt body n bs)
                (listeners-update s.heap p (some (reached me t)) slots fd once) copies in
            (
              (if int_eq fd t.fd then packet rio pkt s.wire body else []) ++ bs,
              sent_on
                  ∙ ap (λ x. x ++ bs)
                      (ap (λ w. w.outgoing fd) wire₁
                        ∙ first_bytes s t (packet rio sent s.wire body) fd real
                        ∙ ap
                            (λ h.
                              s.wire.outgoing fd
                              ++ (if int_eq fd t.fd then header_bytes h ++ body else []))
                            (same s.wire))
                  ∙ append_assoc (s.wire.outgoing fd) _ bs,
              one_copy rio pkt body t fd (listeners s.heap slots fd) bs s.wire (s.heap p) live
                  copies',
            ),
      )
