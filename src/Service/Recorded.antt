-- ===== src/Service/Recorded.antt =====
-- What the service in services/authority acknowledges is in its ledger and in its file.
use ttp_protocol.Common.{
  subst, ◌≡◌, ◌≢◌, sym, ap, ◌∙◌, ◌⊎◌, Option, none, some, ◌∷◌, [], inl, inr, Numbers, arith,
  Option-cases,
}
use ttp_protocol.Common.{◌++◌ as join}
use ttp_protocol.Json.{Fields, Platform}
use ttp_protocol.Service.{AuthorizeRequest, Host}
use ttp_protocol.Service.Signer.{finalize_receipt}
use ttp_protocol.Service.Ledger.{Fault, Ledger, Disk, append}
use ttp_protocol.Service.Decide.{Answer, decide}
use ttp_protocol.Service.Handlers.{
  System, Configuration, Moment, decided, receipt_base, reply_to, world_of, record_answer,
  authorize,
}
use ttp_protocol.Service.Stored.{IsStored, append-IsStored, text_of}
use ttp_protocol.Service.Appends.{log_of, append_refines}
use ttp_protocol.Service.Runs.{Run, Run-keeps}

module _ {Num : Type 0} ⦃number : Numbers Num⦄ (p : Platform Num) (h : Host Num)
    (c : Configuration Num) where
  abbrev Stands : System Num → Type 0
  Stands s = IsStored p h c.secret s.ledger s.disk

  -- The system after an answer is recorded: as it was, or with what the append did.
  record_cases :
      (now : Moment) (r : AuthorizeRequest Num) (a : Answer Num) (s : System Num)
      → (((record_answer p h c now r a s).1 ≡ s)
          × ((b : Answer Num) (f : Fields Num) → (record_answer p h c now r a s).0 ≢ decided b f))
        ⊎ ((receipt : Fields Num) × ((finalize_receipt p h c.secret
                  (receipt_base p h now r a)
                  s.ledger.last
                ≡ some receipt)
              × (((record_answer p h c now r a s).0
                    ≡ reply_to p h a receipt
                        (append p h c.secret now.write receipt s.ledger s.disk).0)
                  × (((record_answer p h c now r a s).1.ledger
                        ≡ (append p h c.secret now.write receipt s.ledger s.disk).1.0)
                      × ((record_answer p h c now r a s).1.disk
                          ≡ (append p h c.secret now.write receipt s.ledger s.disk).1.1)))))
  unfolding record_answer
  record_cases now r a s =
      elim (Option-cases (finalize_receipt p h c.secret (receipt_base p h now r a) s.ledger.last)) [
        | inl none' ↦ inl (ground (arith, none'), λ b f e. ground (arith, none'))
        | inr (receipt, made) ↦
            inr (
              receipt,
              (made, (ground (arith, made), (ground (arith, made), ground (arith, made)))),
            )
      ]

  record_answer-Stands :
      (now : Moment) (r : AuthorizeRequest Num) (a : Answer Num) (s : System Num)
      → Stands s
      → Stands (record_answer p h c now r a s).1
  record_answer-Stands now r a s k = elim (record_cases now r a s) [
    | inl (same, _) ↦ subst Stands (sym same) k
    | inr (receipt, (_, (_, (ledger, disk)))) ↦
        rw (ledger, disk) (append-IsStored p h c.secret now.write receipt s.ledger s.disk k)
  ]

  authorize-Stands :
      (now : Moment) (r : AuthorizeRequest Num) (s : System Num)
      → Stands s
      → Stands (authorize p h c now r s).1
  unfolding authorize
  authorize-Stands now r s k = record_answer-Stands now r _ _ k

  reply_to-decided :
      (a b : Answer Num) (f g : Fields Num) (fault : Option Fault)
      → reply_to p h a f fault ≡ decided b g
      → (fault ≡ none) × ((a ≡ b) × (f ≡ g))
  reply_to-decided a b f g none e = ground arith
  reply_to-decided a b f g (some fault) e = cc

  -- The answer that was recorded, and where it stands.
  pub record IsRecorded (now : Moment) (r : AuthorizeRequest Num) (s s' : System Num)
      (a : Answer Num) (receipt : Fields Num) : Type 0 where
    pub decision : a ≡ (decide p h (world_of p h c now s) r s.spent).0
    pub finalized :
        finalize_receipt p h c.secret (receipt_base p h now r a) s.ledger.last ≡ some receipt
    pub logged : log_of s'.ledger ≡ join (log_of s.ledger) (receipt ∷ [])
    pub durable : s'.disk.text ≡ text_of p h c.secret s'.ledger.entries

  record_answer-IsRecorded :
      (now : Moment) (r : AuthorizeRequest Num) (a b : Answer Num) (s : System Num)
      (receipt : Fields Num)
      → Stands s
      → (record_answer p h c now r a s).0 ≡ decided b receipt
      → (a ≡ b)
        × ((finalize_receipt p h c.secret (receipt_base p h now r a) s.ledger.last ≡ some receipt)
            × ((log_of (record_answer p h c now r a s).1.ledger
                  ≡ join (log_of s.ledger) (receipt ∷ []))
                × ((record_answer p h c now r a s).1.disk.text
                    ≡ text_of p h c.secret (record_answer p h c now r a s).1.ledger.entries)))
  record_answer-IsRecorded now r a b s receipt k told = elim (record_cases now r a s) [
    | inl (_, never) ↦ absurd (never b receipt told)
    | inr (own, (made, (reply, (ledger, disk)))) ↦
        let (accepted, (same, receipt')) = reply_to-decided a b own receipt _ (sym reply ∙ told) in
        elim (append_refines p h c.secret now.write own s.ledger s.disk k) [
          | inr (fault, (failed, _)) ↦ absurd (ground (arith, accepted, failed))
          | inl (_, (logged, text)) ↦ (
            same,
            (
              made ∙ ap some receipt',
              (
                ap log_of ledger ∙ logged ∙ ap (λ f. join (log_of s.ledger) (f ∷ [])) receipt',
                ap (λ (d : Disk). d.text) disk
                    ∙ text
                    ∙ ap (λ (l : Ledger Num). text_of p h c.secret l.entries) (sym ledger),
              ),
            ),
          )
        ]
  ]

-- In any run of a service whose file holds its ledger, a decision is told only with the receipt of it
-- finalized, last in the ledger, and all receipts of the ledger in the file, one line for each.
pub decided-IsRecorded :
    {Num : Type 0} ⦃number : Numbers Num⦄ (p : Platform Num) (h : Host Num) (c : Configuration Num)
    (start s : System Num) (now : Moment) (r : AuthorizeRequest Num) (a : Answer Num)
    (receipt : Fields Num)
    → IsStored p h c.secret start.ledger start.disk
    → Run p h c start s
    → (authorize p h c now r s).0 ≡ decided a receipt
    → IsRecorded p h c now r s (authorize p h c now r s).1 a receipt
unfolding authorize
decided-IsRecorded p h c start s now r a receipt k run told =
    let stands = Run-keeps p h c (Stands p h c) (authorize-Stands p h c) run k in
    let (same, (made, (logged, durable))) =
      record_answer-IsRecorded p h c now r _ a
        (record s { spent = (decide p h (world_of p h c now s) r s.spent).1 }) receipt stands
        told in
    record { decision = sym same; finalized = rw⁻¹ same made; logged = logged; durable = durable }
