-- ===== src/Scheduler/Delivery/Audit.antt =====
-- Replayed deliveries leave one trace (internal/server/scheduler/scheduler.go).
use fobe.Prelude.{
  ℕ, String, List, [], ◌∷◌, Bool, true, contains, ℕ-HasEq, String-HasEq, pair-HasEq, ◌≡◌, refl, ap,
  ◌∙◌, arith, Bool-cases, inl, inr, beq_refl,
}
use fobe.Scheduler.Delivery.{
  Event, Outcome, State, error_of, audit_channel, audit_channels, audit_delivery,
}

-- Whether the memo holds the entry.
unfoldable pub noted : ℕ → String → String → State → Bool
noted id action ch s = contains (id, (action, ch)) s.audited_delivery

module _ (detail : String → Event → String → String) where
  audit_channel-noted :
      (id : ℕ) (ev : Event) (action err ch : String) (s : State)
      → noted id action ch (audit_channel detail id ev action err ch s) ≡ true
  unfolding audit_channel noted
  audit_channel-noted id ev action err ch s =
      elim (Bool-cases (contains (id, (action, ch)) s.audited_delivery)) [
        | inl y ↦ rw y y
        | inr y ↦ rw y (ground (arith, beq_refl {A = ℕ × (String × String)} (id, (action, ch))))
      ]

  audit_channel-keeps :
      (id : ℕ) (ev : Event) (action err ch : String) (i : ℕ) (act c : String) (s : State)
      → noted i act c s ≡ true
      → noted i act c (audit_channel detail id ev action err ch s) ≡ true
  unfolding audit_channel noted
  audit_channel-keeps id ev action err ch i act c s h =
      elim (Bool-cases (contains (id, (action, ch)) s.audited_delivery)) [
        | inl y ↦ rw y h
        | inr y ↦ rw y (ground (arith, h))
      ]

  audit_channels-keeps :
      (id : ℕ) (ev : Event) (action : String) (err : String → String) (chs : List String) (i : ℕ)
      (act c : String) (s : State)
      → noted i act c s ≡ true
      → noted i act c (audit_channels detail id ev action err chs s) ≡ true
  unfolding audit_channels
  audit_channels-keeps id ev action err [] i act c s h = h
  audit_channels-keeps id ev action err (ch ∷ chs) i act c s h =
      audit_channels-keeps id ev action err chs i act c
        (audit_channel detail id ev action (err ch) ch s)
        (audit_channel-keeps id ev action (err ch) ch i act c s h)

  AllNoted : ℕ → String → List String → State → Type 0
  AllNoted id action [] s = Unit
  AllNoted id action (ch ∷ chs) s = (noted id action ch s ≡ true) × AllNoted id action chs s

  audit_channels-AllNoted :
      (id : ℕ) (ev : Event) (action : String) (err : String → String) (chs : List String)
      (s : State)
      → AllNoted id action chs (audit_channels detail id ev action err chs s)
  unfolding AllNoted audit_channels
  audit_channels-AllNoted id ev action err [] s = tt
  audit_channels-AllNoted id ev action err (ch ∷ chs) s =
      let s' = audit_channel detail id ev action (err ch) ch s in
      (
        audit_channels-keeps id ev action err chs id action ch s'
            (audit_channel-noted id ev action (err ch) ch s),
        audit_channels-AllNoted id ev action err chs s',
      )

  -- What is noted writes nothing.
  audit_channels-again :
      (id : ℕ) (ev : Event) (action : String) (err : String → String) (chs : List String)
      (s : State)
      → AllNoted id action chs s
      → audit_channels detail id ev action err chs s ≡ s
  unfolding AllNoted audit_channels audit_channel noted
  audit_channels-again id ev action err [] s h = refl
  audit_channels-again id ev action err (ch ∷ chs) s h =
      rw h.0 (audit_channels-again id ev action err chs s h.1)

  AllNoted-keeps :
      (id : ℕ) (ev : Event) (action : String) (err : String → String) (chs : List String)
      (act : String) (cs : List String) (s : State)
      → AllNoted id act cs s
      → AllNoted id act cs (audit_channels detail id ev action err chs s)
  unfolding AllNoted
  AllNoted-keeps id ev action err chs act [] s h = tt
  AllNoted-keeps id ev action err chs act (c ∷ cs) s h = (
    audit_channels-keeps id ev action err chs id act c s h.0,
    AllNoted-keeps id ev action err chs act cs s h.1,
  )

  -- Auditing the same outcome of an alert again, whatever errors it then reports, writes no
  -- entry and leaves the memo as it is.
  audit_delivery-again :
      (id : ℕ) (ev again : Event) (out : Outcome) (errs : List (String × String)) (s : State)
      → audit_delivery detail id again
          (record out { errs = errs })
          (audit_delivery detail id ev out s)
        ≡ audit_delivery detail id ev out s
  unfolding audit_delivery
  audit_delivery-again id ev again out errs s =
      let s₁ = audit_channels detail id ev "notify_sent" (λ ch. "") out.sent s in
      let s₂ = audit_channels detail id ev "notify_failed" (λ ch. error_of ch out) out.failed s₁ in
      let sent : AllNoted id "notify_sent" out.sent s₂ =
        AllNoted-keeps id ev "notify_failed" (λ ch. error_of ch out) out.failed "notify_sent"
          out.sent s₁ (audit_channels-AllNoted id ev "notify_sent" (λ ch. "") out.sent s) in
      let failed : AllNoted id "notify_failed" out.failed s₂ =
        audit_channels-AllNoted id ev "notify_failed" (λ ch. error_of ch out) out.failed s₁ in
      let err : String → String = λ ch. error_of ch (record out { errs = errs }) in
      ap (audit_channels detail id again "notify_failed" err out.failed)
        (audit_channels-again id again "notify_sent" (λ ch. "") out.sent s₂ sent)
      ∙ audit_channels-again id again "notify_failed" err out.failed s₂ failed
